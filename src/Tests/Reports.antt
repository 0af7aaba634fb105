-- ===== src/Tests/Reports.antt =====
-- A whole run of the program on the two devices, and the theorems on it.
use local_peer_connections.Prelude.{
  ℕ, String, ◌≤◌, ◌<◌, ◌≡◌, refl, false, List, [], ◌∷◌, length, ◌⊎◌, str_eq,
}
use local_peer_connections.Prelude.Int.{max_ℤ}
use local_peer_connections.Python.Value.{get_or, is_str, truthy, elements, find_field}
use local_peer_connections.Python.Text.{show, show_int}
use local_peer_connections.Exec.{
  Result, ok, err, Exec, pure, raise, lift, catch, raise_if, raise_unless, or_raise, fold, for_each,
  map_each, all_of, and_then, ok_or, ◌>>=◌, ◌>>◌,
}
use local_peer_connections.World.{State}
use local_peer_connections.Loop.{monotonic, sleep, while_before, loop_for, poll, wait}
use local_peer_connections.Api.{
  base, value_get, advance, advance_all, dicts, set_cursor, request, snapshot, events, command,
}
use local_peer_connections.Runner.{
  Runner, drain_events, wait_until, presence_started, check_health, preflight, reset_all,
}
use local_peer_connections.Main.{
  Arguments, Outcome, make_apis, make_runner, all_passed, attempt, judge, run_one, run_all, main,
}
use local_peer_connections.Report.{
  number, rate, join, telemetry_line, telemetry_lines, note_counters, note_error, read_device,
}
use local_peer_connections.Links.{put_label}
use local_peer_connections.Main.Exit.{Reported, AllPass, main_recorded, main_passed}
use local_peer_connections.Exec.Contract.{Keeps, Keeps-pure, Keeps-bind}
use local_peer_connections.Loop.Forward.{total}
use local_peer_connections.Scenario.Dispatch.{run}
use local_peer_connections.Api.{Api}
use local_peer_connections.Connect.{connect}
use local_peer_connections.Connect.Total.{Keeps-connect}
use local_peer_connections.Scenario.Dispatch.Total.{Keeps-run}
use local_peer_connections.Main.Total.{clocked, Keeps-main}
use local_peer_connections.Tests.{answer, network_of-IsEnv, network, alpha, beta, pair, start}

-- The scenario of the run: reset both devices.
abbrev scenario : Runner → String → Exec (State network) (Unit {0})
scenario runner name = reset_all network runner

abbrev arguments : Arguments
arguments = record {
  device = alpha.device ∷ beta.device ∷ [];
  scenario = "IT-001" ∷ "IT-002" ∷ [];
  provision_known_peers = false;
  timeout = 5000;
  soak_seconds = 60;
}

abbrev outcomes : Result (List Outcome × ℕ) → List Outcome
outcomes (ok (os, n)) = os
outcomes (err e) = []

results : List Outcome
results = outcomes (main network scenario arguments start).0

finished : State network
finished = (main network scenario arguments start).1

main_run : main network scenario arguments start ≡ (ok (results, 0), finished)
unfolding str_eq get_or is_str truthy elements show show_int pure raise lift catch raise_if
    raise_unless or_raise fold for_each map_each all_of and_then ok_or ◌>>=◌ monotonic sleep
    while_before loop_for poll wait base value_get advance advance_all dicts set_cursor request
    snapshot events command drain_events wait_until presence_started check_health preflight
    reset_all make_apis make_runner all_passed attempt judge number rate join telemetry_line
    telemetry_lines note_counters note_error read_device put_label find_field run_one run_all main
    results finished max_ℤ
main_run = refl

main_recorded_example :
    ((length arguments.device < 2) × (◌≡◌ {A = ℕ} 0 2))
    ⊎ Reported network scenario arguments results 0
main_recorded_example = main_recorded network scenario arguments results 0 start finished main_run

main_passed_example :
    (2 ≤ length arguments.device)
    × AllPass network scenario arguments ("IT-001" ∷ "IT-002" ∷ []) results
main_passed_example = main_passed network scenario arguments results start finished main_run

-- Stands for two interleaved calls of `connect`: here one follows the other.
abbrev in_turn : Runner → Api → Api → Exec (State network) (Unit {0})
in_turn runner first second = do
  connect network runner first second
  connect network runner second first
  pure tt

in_turn-Keeps :
    (runner : Runner) (first second : Api)
    → Keeps (total network (network_of-IsEnv answer)) (in_turn runner first second)
in_turn-Keeps runner first second =
    Keeps-bind _ _ (Keeps-connect network (network_of-IsEnv answer) runner first second) (λ _.
      Keeps-bind _ _ (Keeps-connect network (network_of-IsEnv answer) runner second first)
        (λ _. Keeps-pure tt))

Keeps-run_example :
    Keeps (total network (network_of-IsEnv answer)) (run network in_turn pair "IT-017")
Keeps-run_example = Keeps-run network (network_of-IsEnv answer) in_turn in_turn-Keeps pair "IT-017"

program_Keeps :
    (runner : Runner) (name : String)
    → Keeps (total network (network_of-IsEnv answer)) (run network in_turn runner name)
program_Keeps = Keeps-run network (network_of-IsEnv answer) in_turn in_turn-Keeps

Keeps-main_example :
    Keeps
      (clocked network (network_of-IsEnv answer) (run network in_turn))
      (main network (run network in_turn) arguments)
Keeps-main_example =
    Keeps-main network (network_of-IsEnv answer) (run network in_turn) program_Keeps arguments
