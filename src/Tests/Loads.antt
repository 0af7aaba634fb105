-- ===== src/Tests/Loads.antt =====
-- IT-041 on two devices that deliver every message. A pause on this network lasts long, so that
-- each loop against a deadline has one round.
use local_peer_connections.Prelude.{◌*◌, ◌≤◌, arith}
use local_peer_connections.Prelude.{
  ◌+◌, String, ◌≡◌, refl, str_eq, true, false, ◌||◌, if◌then◌else◌,
}
use local_peer_connections.Prelude.Int.{pos, max_ℤ}
use local_peer_connections.Python.Value.{
  Fields, boolean, int, dict, field, end, get_or, is_str, is_number, same_value, truthy, elements,
  holds_text, find_field,
}
use local_peer_connections.Python.Text.{show, show_int}
use local_peer_connections.Python.Number.{add, multiply, less}
use local_peer_connections.Exec.{
  ok, pure, raise, lift, catch, raise_if, raise_unless, or_raise, fold, for_each, map_each, all_of,
  and_then, ok_or, ◌>>=◌,
}
use local_peer_connections.World.{Reply, response, Env, IsEnv, State}
use local_peer_connections.Loop.{monotonic, sleep, while_before, loop_for, poll, wait}
use local_peer_connections.Api.{
  base, value_get, advance, advance_all, dicts, set_cursor, request, urlopen, snapshot, events,
  command,
}
use local_peer_connections.Runner.{
  drain_events, wait_until, presence_started, check_health, preflight, reset_all,
}
use local_peer_connections.Peers.{peer_id, lists_peer}
use local_peer_connections.Connect.{any_ready, is_ready_with}
use local_peer_connections.Links.{
  put_label, put_all, insert_text, peers_of, all_texts, in_set, is_unstable, relevant, links_ready,
  relevant_ready, selected_peers, check_stable, check_links, assert_links, sees_all, all_linked,
  wait_for_links, watch_round, watch, stability_window, pair_ready, ensure_bidirectional_ready,
}
use local_peer_connections.Loop.Forward.{elapsed}
use local_peer_connections.Links.Window.{stability_window_lasts}
use local_peer_connections.Scenario.{first_two}
use local_peer_connections.Scenario.Load.{
  direct_traffic, read_traffic, capture, in_parallel, start_both, stop_both, check_fixed_rate,
  link_pair, scenario_bidirectional_fixed_rate,
}
use local_peer_connections.Scenario.Load.Delivered.{
  Passed, scenario_bidirectional_fixed_rate-Passed,
}
use local_peer_connections.Tests.{answer, network_of, pair}

-- The counters of a device that has sent 300 messages.
abbrev traffic : Fields
traffic = field "running" (boolean false) (
    field "messageSize" (int (pos 64)) (
      field "messagesPerSecond" (int (pos 5)) (
        field "sent" (int (pos 300))
          (field "acked" (int (pos 300)) (field "timedOut" (int (pos 0)) end)))))

abbrev traffic_answer : String → Reply
traffic_answer url =
    if str_eq url "http://127.0.0.1:1/command" || str_eq url "http://127.0.0.1:2/command"
    then response (
        dict (
          field "ok" (boolean true) (
            field "result"
              (dict (field "trafficTests" (dict (field "direct" (dict traffic) end)) end)) end)))
    else answer url

abbrev fast : Env
fast = record (network_of traffic_answer) { sleep = λ d w. w + d + 100000 }

abbrev begun : State fast
begun = record { world = 0; cursor = λ i. pos 0; metrics = end }

delivered : State fast
delivered = (scenario_bidirectional_fixed_rate fast pair begun).1

delivered_run : scenario_bidirectional_fixed_rate fast pair begun ≡ (ok tt, delivered)
unfolding str_eq get_or is_str is_number same_value truthy elements holds_text find_field show
    show_int pure raise lift catch raise_if raise_unless or_raise fold for_each map_each all_of
    and_then ok_or ◌>>=◌ monotonic sleep while_before loop_for poll wait base value_get advance
    advance_all dicts set_cursor request urlopen snapshot events command drain_events wait_until
    presence_started check_health preflight reset_all peer_id lists_peer first_two any_ready
    is_ready_with put_label put_all insert_text peers_of all_texts in_set is_unstable relevant
    links_ready relevant_ready selected_peers check_stable check_links assert_links sees_all
    all_linked wait_for_links watch_round watch stability_window pair_ready
    ensure_bidirectional_ready add multiply less direct_traffic read_traffic capture in_parallel
    start_both stop_both check_fixed_rate link_pair scenario_bidirectional_fixed_rate max_ℤ
    delivered
delivered_run = refl

scenario_bidirectional_fixed_rate-Passed_example : Passed fast pair begun delivered
scenario_bidirectional_fixed_rate-Passed_example =
    scenario_bidirectional_fixed_rate-Passed fast pair tt begun delivered delivered_run

fast-IsEnv : IsEnv fast
fast-IsEnv = record {
  elapsed = λ w. w;
  urlopen_le = λ r t w. omega arith;
  read_after = λ w. omega arith;
  read_before = λ w. omega arith;
  second_first_le = λ w. omega arith;
  sleep_le = λ d w. omega arith;
}

watched : State fast
watched = (stability_window fast pair "IT-041" 3 begun).1

window_run : stability_window fast pair "IT-041" 3 begun ≡ (ok tt, watched)
unfolding str_eq get_or is_str is_number same_value truthy elements holds_text find_field show
    show_int pure raise lift catch raise_if raise_unless or_raise fold for_each map_each all_of
    and_then ok_or ◌>>=◌ monotonic sleep while_before loop_for poll wait base value_get advance
    advance_all dicts set_cursor request urlopen snapshot events command drain_events wait_until
    presence_started check_health preflight reset_all peer_id lists_peer first_two any_ready
    is_ready_with put_label put_all insert_text peers_of all_texts in_set is_unstable relevant
    links_ready relevant_ready selected_peers check_stable check_links assert_links sees_all
    all_linked wait_for_links watch_round watch stability_window pair_ready
    ensure_bidirectional_ready add multiply less direct_traffic read_traffic capture in_parallel
    start_both stop_both check_fixed_rate link_pair scenario_bidirectional_fixed_rate max_ℤ watched
window_run = refl

stability_window_lasts_example :
    elapsed fast fast-IsEnv begun + 3 * 1000 ≤ elapsed fast fast-IsEnv watched
stability_window_lasts_example =
    stability_window_lasts fast fast-IsEnv pair "IT-041" 3 tt begun watched window_run
