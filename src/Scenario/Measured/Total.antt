-- ===== src/Scenario/Measured/Total.antt =====
-- IT-044 ends, whatever the devices answer.
use local_peer_connections.Prelude.{ℕ, suc, List, [], ◌∷◌}
use local_peer_connections.Python.Value.{Fields, get}
use local_peer_connections.Exec.Contract.{Keeps, Keeps-lift, Keeps-bind, Keeps-pure, keeps_rules}
use local_peer_connections.World.{Env, IsEnv}
use local_peer_connections.Loop.Forward.{total, ResultEnds, and_then-ResultEnds, if-ResultEnds}
use local_peer_connections.Api.{Api}
use local_peer_connections.Runner.{Runner}
use local_peer_connections.Links.Total.{
  Keeps-assert_links, Keeps-wait_for_links, Keeps-stability_window,
}
use local_peer_connections.Scenario.Total.{step_rules}
use local_peer_connections.Scenario.Numbers.{settle_ends, less_ends, greatest_ends, int_of_ends}
use local_peer_connections.Scenario.Groups.Total.{Keeps-create_group, Keeps-wait_group}
use local_peer_connections.Scenario.Measured.{
  find_leader, leads, read_counters, active_duration, judge_phase, drained, checkpoint_phase,
  checkpoint_phases, scenario_checkpoint_bandwidth_latency,
}

find_leader_ends : (apis : List Api) (ds : List Fields) → ResultEnds (find_leader apis ds)
unfolding find_leader
find_leader_ends [] ds = tt
find_leader_ends (api ∷ apis) [] = tt
find_leader_ends (api ∷ apis) (d ∷ rest) =
    if-ResultEnds (leads (get "group" d)) _ _ tt (find_leader_ends apis rest)

read_counters_ends : (size : ℕ) (d : Fields) → ResultEnds (read_counters size d)
unfolding read_counters
read_counters_ends size d = search (and_then-ResultEnds, int_of_ends) depth 12

module _ (E : Env) (laws : IsEnv E) where
  active_duration_ends : (d : Fields) → ResultEnds (active_duration E d)
  unfolding active_duration
  active_duration_ends d = search (and_then-ResultEnds, settle_ends, greatest_ends) depth 8

  Keeps-judge_phase :
      (phase size : ℕ) (d : Fields) → Keeps (total E laws) (judge_phase E phase size d)
  unfolding judge_phase
  Keeps-judge_phase phase size d =
      search
        (keeps_rules, Keeps-lift, settle_ends, less_ends, read_counters_ends, active_duration_ends)
        depth 16

  ruleset phase_rules = (
    step_rules, find_leader_ends, Keeps-judge_phase, Keeps-assert_links, Keeps-wait_for_links,
    Keeps-stability_window, Keeps-create_group, Keeps-wait_group,
  )

  Keeps-drained : (api : Api) → Keeps (total E laws) (drained E api)
  unfolding drained
  Keeps-drained api = search step_rules depth 12

  Keeps-checkpoint_phase :
      (runner : Runner) (leader : Api) (phase size : ℕ)
      → Keeps (total E laws) (checkpoint_phase E runner leader phase size)
  unfolding checkpoint_phase
  Keeps-checkpoint_phase runner leader phase size = search (phase_rules, Keeps-drained) depth 18

  Keeps-checkpoint_phases :
      (runner : Runner) (leader : Api) (phase : ℕ) (sizes : List ℕ)
      → Keeps (total E laws) (checkpoint_phases E runner leader phase sizes)
  unfolding checkpoint_phases
  Keeps-checkpoint_phases runner leader phase [] = Keeps-pure tt
  Keeps-checkpoint_phases runner leader phase (size ∷ rest) =
      Keeps-bind _ _ (Keeps-checkpoint_phase runner leader phase size)
        (λ _. Keeps-checkpoint_phases runner leader (suc phase) rest)

  pub Keeps-scenario_checkpoint_bandwidth_latency :
      (runner : Runner) → Keeps (total E laws) (scenario_checkpoint_bandwidth_latency E runner)
  unfolding scenario_checkpoint_bandwidth_latency
  Keeps-scenario_checkpoint_bandwidth_latency runner =
      search (phase_rules, Keeps-checkpoint_phases) depth 24
