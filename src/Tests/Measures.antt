-- ===== src/Tests/Measures.antt =====
-- A phase of IT-044 on two devices, of which the first has published 20 checkpoints.
use local_peer_connections.Prelude.{
  ℕ, zero, suc, ◌*◌, ◌/◌, ◌^◌, String, ◌≡◌, refl, str_eq, false, Option, some, [], ◌∷◌, ◌⊎◌, inl,
  inr, if◌then◌else◌,
}
use local_peer_connections.Prelude.Int.{ℤ, pos, max_ℤ, ◌+ℤ◌, ◌*ℤ◌}
use local_peer_connections.Python.Value.{
  Value, Fields, boolean, int, float, as_number, dict, field, end, get_or, is_str, is_number,
  same_value, truthy, elements, holds_text, find_field,
}
use local_peer_connections.Python.Text.{show, show_int}
use local_peer_connections.Python.Number.{less, greatest, int_of}
use local_peer_connections.Exec.{
  Builtin, type_error, zero_division_error, ok, pure, raise, lift, catch, raise_if, raise_unless,
  or_raise, fold, for_each, map_each, all_of, and_then, ok_or, ◌>>=◌,
}
use local_peer_connections.World.{Reply, response, Env, State}
use local_peer_connections.Loop.{monotonic, sleep, while_before, loop_for, poll, wait}
use local_peer_connections.Api.{
  base, value_get, advance, advance_all, dicts, set_cursor, request, urlopen, snapshot, events,
  command,
}
use local_peer_connections.Runner.{wait_until}
use local_peer_connections.Links.{
  put_label, put_all, insert_text, peers_of, all_texts, in_set, is_unstable, relevant, links_ready,
  selected_peers, check_stable, check_links, assert_links,
}
use local_peer_connections.Scenario.{act}
use local_peer_connections.Scenario.Measured.{
  read_counters, active_duration, judge_phase, drained, checkpoint_phase, checkpoint_phases,
}
use local_peer_connections.Scenario.Measured.Judged.{AllMeasured, checkpoint_phases-AllMeasured}
use local_peer_connections.Tests.{answer, snapshot_of, network_of, no_floats, alpha, pair}

abbrev test : Fields
test = field "running" (boolean false) (
    field "accepted" (int (pos 20))
      (field "durable" (int (pos 20)) (field "completed" (int (pos 20)) end)))

abbrev with_test : Value → Value
with_test (dict d) = dict (field "checkpointTest" (dict test) d)
with_test v = v

abbrev measured_answer : String → Reply
measured_answer url =
    if str_eq url "http://127.0.0.1:1/snapshot"
    then response (with_test (snapshot_of "A" "B" "beta"))
    else answer url

-- The whole part of a quotient of two numbers that are not negative.
abbrev quotient : Option (ℤ × ℕ) → Option (ℤ × ℕ) → Builtin ⊎ Value
quotient (some (pos m, j)) (some (pos zero, k)) = inl zero_division_error
quotient (some (pos m, j)) (some (pos (suc n), k)) =
    inr (float (pos (m * 2 ^ k / (suc n * 2 ^ j))) 0)
quotient _ _ = inl type_error

abbrev measuring : Env
measuring = record (network_of measured_answer) {
  arithmetic = record no_floats { divide = λ v w. quotient (as_number v) (as_number w) };
}

abbrev ready : State measuring
ready = record { world = 0; cursor = λ i. pos 0; metrics = end }

measured : State measuring
measured = (checkpoint_phases measuring pair alpha 1 (64 ∷ []) ready).1

measured_run : checkpoint_phases measuring pair alpha 1 (64 ∷ []) ready ≡ (ok tt, measured)
unfolding str_eq get_or is_str is_number same_value truthy elements holds_text find_field show
    show_int pure raise lift catch raise_if raise_unless or_raise fold for_each map_each all_of
    and_then ok_or ◌>>=◌ monotonic sleep while_before loop_for poll wait base value_get advance
    advance_all dicts set_cursor request urlopen snapshot events command wait_until put_label
    put_all insert_text peers_of all_texts in_set is_unstable relevant links_ready selected_peers
    check_stable check_links assert_links less max_ℤ act greatest int_of ◌+ℤ◌ ◌*ℤ◌ read_counters
    active_duration judge_phase drained checkpoint_phase checkpoint_phases measured
measured_run = refl

checkpoint_phases-AllMeasured_example : AllMeasured measuring pair alpha 1 (64 ∷ []) ready measured
checkpoint_phases-AllMeasured_example =
    checkpoint_phases-AllMeasured measuring pair alpha 1 (64 ∷ []) tt ready measured measured_run
