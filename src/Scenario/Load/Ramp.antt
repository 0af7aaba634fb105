-- ===== src/Scenario/Load/Ramp.antt =====
-- IT-043 of integration_device_app/tool/device_integration_runner.py: traffic both ways, in phases
-- whose message size grows and shrinks.
pub mod Total
use Prim.Native.Nat.{max}
use local_peer_connections.Prelude.{
  ℕ, zero, suc, ◌+◌, ◌*◌, ◌/◌, String, Bool, true, false, not, ◌&&◌, ◌||◌, Option, none, some, List,
  [], ◌∷◌, ◌++◌, ◌==◌, length, if◌then◌else◌,
}
use local_peer_connections.Prelude.Int.{pos}
use local_peer_connections.Python.Value.{
  Value, Fields, int, float, str, list, dict, nil, cons, end, characters, field, get, get_or,
  is_str, is_number, is_false, truthy, same_value, find_field,
}
use local_peer_connections.Python.Number.{add, multiply, less, divide}
use local_peer_connections.Exec.{
  text, shown, formatted, Message, failure, builtin, attribute_error, key_error, index_error,
  type_error, Result, ok, err, Exec, and_then, ok_or, pure, raise, lift, ◌>>=◌, ◌>>◌, raise_if,
  raise_unless, for_each, all_of,
}
use local_peer_connections.World.{Env, State}
use local_peer_connections.Loop.{monotonic}
use local_peer_connections.Api.{Api, label, value_get, snapshot, command}
use local_peer_connections.Runner.{Runner, drain_events, reset_all, wait_until, wait_for_event}
use local_peer_connections.Connect.{connect}
use local_peer_connections.Peers.{connections, peer_id}
use local_peer_connections.Links.{
  put_label, look, assert_links, wait_for_links, watch, stability_window,
  ensure_bidirectional_ready,
}
use local_peer_connections.Scenario.{first_two, has_length, has_connections, both, is_intact}
use local_peer_connections.Scenario.Groups.{subscript, create_group, wait_group}
use local_peer_connections.Scenario.Load.{
  traffic_arguments, direct_traffic, Traffic, read_traffic, start_both, stop_both, link_pair,
}

-- What one direction of IT-043 has delivered.
pub record Totals : Type 0 where
  pub delivered_bytes : Value
  pub sent : Value
  pub lost : Value

abbrev pub no_totals : Totals
no_totals = record { delivered_bytes = int (pos 0); sent = int (pos 0); lost = int (pos 0) }

abbrev totals_value : Totals → Value
totals_value t =
    dict (field "deliveredBytes" t.delivered_bytes (field "sent" t.sent (field "lost" t.lost end)))

-- `totals[label]`
abbrev pub totals_at : String → List (String × Totals) → Result Totals
totals_at name totals = ok_or (look name totals) (builtin key_error)

-- The double that `0.10` denotes.
abbrev pub tenth : Value
tenth = float (pos 3602879701896397) 55

abbrev pub sizes : List ℕ
sizes = 64 ∷ 128 ∷ 256 ∷ 512 ∷ 1024 ∷ 2048 ∷ 1024 ∷ 512 ∷ 256 ∷ 128 ∷ 64 ∷ []

module _ (E : Env) where
  abbrev phase_of : ℕ → Message
  phase_of phase = text "IT-043: phase " ∷ shown (int (pos phase)) ∷ []

  -- The checks of IT-043 on the counters that one device reports after a phase.
  unfoldable pub check_phase : ℕ → ℕ → Api → Fields → Exec (State E) Traffic
  check_phase phase size api d = do
    found ← lift (direct_traffic d)
    t ← lift (read_traffic found)
    raise_unless (is_false (get "running" t.fields))
        (failure (phase_of phase ++ text " did not stop on " ∷ text (label api) ∷ []))
    raise_unless
        (is_number size (get "messageSize" t.fields)
          && (is_number 1 (get "messagesPerSecond" t.fields)
              && is_number 1 (get "maxPending" t.fields)))
        (failure (
          phase_of phase
          ++ text " wrong traffic configuration on "
            ∷ text (label api)
            ∷ text ": "
            ∷ shown found
            ∷ []))
    ended ← lift (add E.arithmetic t.acked t.timed_out)
    raise_unless (same_value ended t.sent) (
        failure (
          phase_of phase
          ++ text " incomplete ACK accounting on "
            ∷ text (label api)
            ∷ text ": "
            ∷ shown found
            ∷ []))
    pure t

  -- The counters of a phase are added to the totals of the device.
  unfoldable pub add_totals :
      ℕ → Api → Traffic → List (String × Totals) → Exec (State E) (List (String × Totals))
  add_totals size api t totals = do
    before ← lift (totals_at (label api) totals)
    bytes ← lift (multiply E.arithmetic t.acked (int (pos size)))
    delivered ← lift (add E.arithmetic before.delivered_bytes bytes)
    sent ← lift (add E.arithmetic before.sent t.sent)
    lost ← lift (add E.arithmetic before.lost t.timed_out)
    pure (
        put_label (label api) (record { delivered_bytes = delivered; sent = sent; lost = lost })
          totals)

  unfoldable pub account :
      ℕ → ℕ → Api → Fields → List (String × Totals) → Exec (State E) (List (String × Totals))
  account phase size api d totals = do
    t ← check_phase phase size api d
    add_totals size api t totals

  -- `math.ceil(size / 200) + 2 + 5` seconds, in milliseconds.
  abbrev drain_budget : ℕ → ℕ
  drain_budget size = ((size + 199) / 200 + 7) * 1000

  -- One phase of IT-043.
  unfoldable pub ramp_phase :
      Runner
      → Api × String
      → Api × String
      → ℕ
      → ℕ
      → List (String × Totals)
      → Exec (State E) (List (String × Totals))
  ramp_phase runner (first, first_target) (second, second_target) phase size totals = do
    let pending = field "maxPending" (int (pos 1)) end
    start_both E first second (traffic_arguments first_target size 1 pending)
        (traffic_arguments second_target size 1 pending)
    watch E 250 5000 (assert_links E runner "IT-043" (shown (int (pos phase)) ∷ []))
    (mine, yours) ← stop_both E first second (some (max runner.timeout (drain_budget size)))
    counted ← account phase size first mine totals
    all_counted ← account phase size second yours counted
    assert_links E runner "IT-043" (shown (int (pos phase)) ∷ [])
    pure all_counted

  -- `for phase, size in enumerate(sizes, start=1)`
  unfoldable pub ramp :
      Runner
      → Api × String
      → Api × String
      → ℕ
      → List ℕ
      → List (String × Totals)
      → Exec (State E) (List (String × Totals))
  ramp runner first second phase [] totals = pure totals
  ramp runner first second phase (size ∷ sizes) totals = do
    counted ← ramp_phase runner first second phase size totals
    ramp runner first second (suc phase) sizes counted

  unfoldable pub check_totals : List (String × Totals) → Api → Exec (State E) (Unit {0})
  check_totals totals api = do
    t ← lift (totals_at (label api) totals)
    loss_rate ←
        lift (if truthy t.sent then divide E.arithmetic t.lost t.sent else ok (float (pos 1) 0))
    bandwidth ← lift (divide E.arithmetic t.delivered_bytes (int (pos 55)))
    slow ← lift (less E.arithmetic bandwidth (int (pos 200)))
    raise_if slow (
        failure (
          text "IT-043: "
          ∷ text (label api)
          ∷ text " average delivered bandwidth "
          ∷ formatted bandwidth ".2f"
          ∷ text " B/s is below "
          ∷ shown (int (pos 200))
          ∷ text " B/s; totals="
          ∷ shown (totals_value t)
          ∷ []))
    low ← lift (less E.arithmetic loss_rate tenth)
    raise_unless low (
        failure (
          text "IT-043: "
          ∷ text (label api)
          ∷ text " loss rate "
          ∷ formatted loss_rate ".2%"
          ∷ text " is not below 10%; totals="
          ∷ shown (totals_value t)
          ∷ []))

  unfoldable pub scenario_bidirectional_size_ramp : Runner → Exec (State E) (Unit {0})
  scenario_bidirectional_size_ramp runner = do
    (first, second) ← link_pair E runner "IT-043"
    totals ←
        ramp runner first second 1 sizes
          (put_label (label second.0) no_totals (put_label (label first.0) no_totals []))
    for_each (check_totals totals) (first.0 ∷ second.0 ∷ [])
    stability_window E runner "IT-043" 30
