-- ===== src/Scenario/Measured.antt =====
-- IT-044: the bandwidth, the loss and the admission of checkpoint publications of growing size.
pub mod Total
pub mod Judged
use Prim.Native.Nat.{max}
use local_peer_connections.Prelude.{
  ℕ, zero, suc, ◌+◌, ◌*◌, ◌/◌, String, Bool, true, false, not, ◌&&◌, Option, none, some, List, [],
  ◌∷◌, ◌++◌, ltb, if◌then◌else◌,
}
use local_peer_connections.Prelude.Int.{ℤ, pos, ltb_ℤ, ◌+ℤ◌, ◌*ℤ◌}
use local_peer_connections.Python.Value.{
  Value, Fields, int, float, str, dict, end, field, get, get_or, is_number, is_true, is_false,
  truthy, as_dict,
}
use local_peer_connections.Python.Number.{less, greatest, to_float, divide, int_of}
use local_peer_connections.Exec.{
  Piece, text, shown, formatted, Message, failure, builtin, stop_iteration, Result, ok, err, Exec,
  and_then, pure, lift, ◌>>=◌, ◌>>◌, raise_if, raise_unless, or_raise, map_each,
}
use local_peer_connections.World.{Env, State}
use local_peer_connections.Loop.{sleep}
use local_peer_connections.Api.{Api, label, snapshot, command}
use local_peer_connections.Runner.{Runner, drain_events, reset_all, wait_until}
use local_peer_connections.Connect.{connect}
use local_peer_connections.Peers.{peer_id}
use local_peer_connections.Links.{assert_links, wait_for_links, stability_window}
use local_peer_connections.Scenario.{first_two, act}
use local_peer_connections.Scenario.Groups.{create_group, wait_group}
use local_peer_connections.Scenario.Load.Ramp.{sizes, tenth}

-- `isinstance(group, dict) and group.get("localIsCoordinator") is True`
abbrev pub leads : Value → Bool
leads (dict g) = is_true (get "localIsCoordinator" g)
leads _ = false

-- `next(api for api, snapshot in zip(…) if …)`
unfoldable pub find_leader : List Api → List Fields → Result Api
find_leader (api ∷ apis) (d ∷ rest) =
    if leads (get "group" d) then ok api else find_leader apis rest
find_leader _ _ = err (builtin stop_iteration)

-- The whole numbers of a phase.
pub record Counters : Type 0 where
  pub accepted : ℤ
  pub durable : ℤ
  pub failed : ℤ
  pub admission_failed : ℤ
  pub completed : ℤ
  pub durable_bytes : ℤ

unfoldable pub read_counters : ℕ → Fields → Result Counters
read_counters size d = and_then (int_of (get_or "accepted" (int (pos 0)) d)) (λ accepted.
    and_then (int_of (get_or "durable" (int (pos 0)) d)) (λ durable.
      and_then (int_of (get_or "failed" (int (pos 0)) d)) (λ failed.
        and_then (int_of (get_or "admissionFailed" (int (pos 0)) d)) (λ admission_failed.
          and_then (int_of (get_or "completed" (int (pos 0)) d)) (λ completed.
            and_then (int_of (get_or "durableBytes" (int (durable *ℤ pos size)) d))
              (λ durable_bytes. ok (record {
                accepted = accepted;
                durable = durable;
                failed = failed;
                admission_failed = admission_failed;
                completed = completed;
                durable_bytes = durable_bytes;
              })))))))

-- `max(1, n)`
abbrev pub at_least_one : ℤ → ℤ
at_least_one n = if ltb_ℤ (pos 1) n then n else pos 1

module _ (E : Env) where
  -- `max(float(test.get("durationMs", 5000.0)) / 1000.0, 5.0)`
  unfoldable pub active_duration : Fields → Result Value
  active_duration d =
      and_then (to_float E.arithmetic (get_or "durationMs" (float (pos 5000) 0) d)) (λ ms.
        and_then (divide E.arithmetic ms (float (pos 1000) 0))
          (λ seconds. greatest E.arithmetic seconds (float (pos 5) 0)))

  -- The dict `result`, as the failures show it.
  abbrev result_value : ℕ → ℕ → Fields → Counters → Value → Value → Value → Value
  result_value phase size d c duration bandwidth loss_rate = dict (
      field "phase" (int (pos phase)) (
        field "checkpointSize" (int (pos size)) (
          field "accepted" (int c.accepted) (
            field "durable" (int c.durable) (
              field "completed" (int c.completed) (
                field "failed" (int c.failed) (
                  field "admissionFailed" (int c.admission_failed) (
                    field "acceptedBytes" (get_or "acceptedBytes" (int (c.accepted *ℤ pos size)) d)
                      (field "durableBytes" (int c.durable_bytes) (
                        field "bandwidthBytesPerSecond" bandwidth (
                          field "lossRate" loss_rate (
                            field "averageLatencyMs" (get "averageCompletionMs" d) (
                              field "maxLatencyMs" (get "maxCompletionMs" d)
                                (field "durationSeconds" duration end))))))))))))))

  abbrev about : ℕ → Message
  about phase = text "IT-044: phase " ∷ shown (int (pos phase)) ∷ []

  -- The checks on the test that the coordinator reports after a phase.
  unfoldable pub judge_phase : ℕ → ℕ → Fields → Exec (State E) (Unit {0})
  judge_phase phase size d = do
    c ← lift (read_counters size d)
    duration ← lift (active_duration d)
    bandwidth ← lift (divide E.arithmetic (int c.durable_bytes) duration)
    loss_rate ←
        lift (divide E.arithmetic (int c.failed) (int (at_least_one (c.accepted +ℤ c.failed))))
    let result = shown (result_value phase size d c duration bandwidth loss_rate)
    raise_if (ltb_ℤ c.accepted (pos 16)) (
        failure (
          about phase
          ++ text " admitted only "
            ∷ shown (int c.accepted)
            ∷ text " checkpoint publications: "
            ∷ result
            ∷ []))
    slow ← lift (less E.arithmetic bandwidth (float (pos 200) 0))
    raise_if slow (
        failure (
          about phase
          ++ text " durable bandwidth "
            ∷ formatted bandwidth ".1f"
            ∷ text " B/s is below "
            ∷ formatted (float (pos 200) 0) ".1f"
            ∷ text ": "
            ∷ result
            ∷ []))
    low ← lift (less E.arithmetic loss_rate tenth)
    raise_unless low (
        failure (
          about phase
          ++ text " failed-publication rate "
            ∷ formatted loss_rate ".2%"
            ∷ text " is not below 10%: "
            ∷ result
            ∷ []))
    raise_if (truthy (int c.admission_failed)) (
        failure (
          about phase
          ++ text " hit the four-publication/second admission limit "
            ∷ shown (int c.admission_failed)
            ∷ text " times: "
            ∷ result
            ∷ []))

  -- `drained`
  abbrev pub is_drained : Value → Bool
  is_drained (dict d) = is_false (get "running" d) && is_number 0 (get_or "pending" (int (pos 0)) d)
  is_drained _ = false

  abbrev pub test_of : Api → Exec (State E) Value
  test_of api = do d ← snapshot E api; pure (get_or "checkpointTest" (dict end) d)

  unfoldable pub drained : Api → Exec (State E) Bool
  drained api = do test ← test_of api; pure (is_drained test)

  abbrev pub test_arguments : ℕ → Fields
  test_arguments size =
      field "checkpointSize" (int (pos size)) (field "checkpointsPerSecond" (float (pos 4) 0) end)

  unfoldable pub checkpoint_phase : Runner → Api → ℕ → ℕ → Exec (State E) (Unit {0})
  checkpoint_phase runner leader phase size = do
    act E leader "startCheckpointTest" (test_arguments size)
    sleep E 5000
    act E leader "stopCheckpointTest" end
    wait_until E (drained leader)
        (text "IT-044 phase " ∷ shown (int (pos phase)) ∷ text " checkpoint drain" ∷ [])
        (max 30000 (((size + 199) / 200 + 2) * 1000))
    test ← test_of leader
    d ←
        or_raise (as_dict test)
          (failure (text "IT-044: missing phase snapshot " ∷ shown (int (pos phase)) ∷ []))
    judge_phase phase size d
    assert_links E runner "IT-044" (shown (int (pos phase)) ∷ [])

  unfoldable pub checkpoint_phases : Runner → Api → ℕ → List ℕ → Exec (State E) (Unit {0})
  checkpoint_phases runner leader phase [] = pure tt
  checkpoint_phases runner leader phase (size ∷ rest) = do
    checkpoint_phase runner leader phase size
    checkpoint_phases runner leader (suc phase) rest

  unfoldable pub scenario_checkpoint_bandwidth_latency : Runner → Exec (State E) (Unit {0})
  scenario_checkpoint_bandwidth_latency runner = do
    reset_all E runner
    (first, second) ← lift (first_two runner.apis)
    connect E runner first second
    create_group E runner true
    wait_group E runner 2
    snapshots ← map_each (snapshot E) runner.apis
    leader ← lift (find_leader runner.apis snapshots)
    drain_events E runner
    peer_id E first second
    peer_id E second first
    wait_for_links E runner "IT-044"
    stability_window E runner "IT-044" 3
    checkpoint_phases runner leader 1 sizes
    stability_window E runner "IT-044" 30
