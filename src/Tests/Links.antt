-- ===== src/Tests/Links.antt =====
-- Provisioning and the checks on links, on the two devices.
use local_peer_connections.Prelude.{
  String, ◌≡◌, refl, str_eq, none, some, List, [], ◌∷◌, All, inl, if◌then◌else◌,
}
use local_peer_connections.Prelude.Int.{max_ℤ, pos}
use local_peer_connections.Python.Value.{
  Fields, int, str, dict, field, end, get_or, is_str, truthy, elements, holds_text, find_field,
}
use local_peer_connections.Python.Text.{show, show_int}
use local_peer_connections.Exec.{
  Message, text, ok, pure, raise, lift, catch, raise_if, raise_unless, or_raise, fold, for_each,
  map_each, all_of, and_then, ok_or, ◌>>=◌,
}
use local_peer_connections.Exec.Each.{Chain}
use local_peer_connections.Exec.Contract.{Keeps}
use local_peer_connections.World.{Reply, response, Env, State}
use local_peer_connections.Loop.{monotonic, sleep, while_before, loop_for, poll, wait}
use local_peer_connections.Loop.Forward.{total}
use local_peer_connections.Api.{
  base, value_get, advance, advance_all, dicts, set_cursor, request, snapshot, events, command,
}
use local_peer_connections.Runner.{Runner, wait_until}
use local_peer_connections.Peers.{
  others, local_peers, provision_from, all_know, provision_known_peers,
}
use local_peer_connections.Peers.Provisioned.{AllKnow, provisioned}
use local_peer_connections.Links.{
  put_label, put_all, insert_text, peers_of, all_texts, in_set, is_unstable, relevant, links_ready,
  selected_peers, check_stable, check_links, assert_links,
}
use local_peer_connections.Links.Sound.{Checked, assert_links-Checked}
use local_peer_connections.Links.Labels.{NamesPeer, equal_labels_expect_nothing}
use local_peer_connections.Links.Traffic.{traffic_window}
use local_peer_connections.Links.Traffic.Total.{Keeps-traffic_window}
use local_peer_connections.Tests.{
  network, network_of, network_of-IsEnv, answer, alpha, beta, pair, start,
}

befriended : State network
befriended = (provision_known_peers network pair start).1

provision_run : provision_known_peers network pair start ≡ (ok tt, befriended)
unfolding str_eq get_or is_str truthy elements holds_text find_field show show_int pure raise lift
    catch raise_if raise_unless or_raise fold for_each map_each all_of and_then ok_or ◌>>=◌
    monotonic sleep while_before loop_for poll wait base value_get advance advance_all dicts
    set_cursor request snapshot events command wait_until others local_peers provision_from all_know
    provision_known_peers put_label put_all insert_text peers_of all_texts in_set is_unstable
    relevant links_ready selected_peers check_stable check_links assert_links max_ℤ befriended
provision_run = refl

provisioned_example :
    (snapshots : List Fields) × (peers : List String) × (u v : State network) × (map_each
        (snapshot network)
        pair.apis
        start
      ≡ (ok snapshots, u))
    × (local_peers snapshots ≡ some peers)
    × AllKnow network peers 0 pair.apis v befriended
provisioned_example =
    provisioned network (network_of-IsEnv answer) pair tt start befriended provision_run

phase : Message
phase = text "1" ∷ []

checked : State network
checked = (assert_links network pair "IT-041" phase start).1

assert_links_run : assert_links network pair "IT-041" phase start ≡ (ok tt, checked)
unfolding str_eq get_or is_str truthy elements holds_text find_field show show_int pure raise lift
    catch raise_if raise_unless or_raise fold for_each map_each all_of and_then ok_or ◌>>=◌
    monotonic sleep while_before loop_for poll wait base value_get advance advance_all dicts
    set_cursor request snapshot events command wait_until others local_peers provision_from all_know
    provision_known_peers put_label put_all insert_text peers_of all_texts in_set is_unstable
    relevant links_ready selected_peers check_stable check_links assert_links max_ℤ checked phase
assert_links_run = refl

assert_links-Checked_example :
    (peers : List (String × String)) × (u : State network) × (selected_peers network pair start
      ≡ (ok peers, u))
    × Chain (Checked network peers) pair.apis u checked
assert_links-Checked_example =
    assert_links-Checked network pair "IT-041" phase tt start checked assert_links_run

-- A network on which no device lists a connection.
abbrev lone_answer : String → Reply
lone_answer url =
    if str_eq url "http://127.0.0.1:1/snapshot"
    then response (dict (field "localPeerId" (str "A") end))
    else if str_eq url "http://127.0.0.1:2/snapshot"
    then response (dict (field "localPeerId" (str "B") end))
    else answer url

abbrev lonely : Env
lonely = network_of lone_answer

abbrev start_lonely : State lonely
start_lonely = record { world = 0; cursor = λ i. pos 0; metrics = end }

-- Two devices under one label.
abbrev twins : Runner
twins = record pair {
  apis = alpha ∷ record beta { device = record { label = "alpha"; port = pos 2 } } ∷ [];
}

twins_read : State lonely
twins_read = (selected_peers lonely twins start_lonely).1

twins_polled : State lonely
twins_polled = (events lonely alpha twins_read).1

twins_shot : State lonely
twins_shot = (snapshot lonely alpha twins_polled).1

twins_run : selected_peers lonely twins start_lonely ≡ (ok (("alpha", "B") ∷ []), twins_read)
unfolding str_eq get_or is_str truthy elements holds_text find_field show show_int pure raise lift
    catch raise_if raise_unless or_raise fold for_each map_each all_of and_then ok_or ◌>>=◌
    monotonic sleep while_before loop_for poll wait base value_get advance advance_all dicts
    set_cursor request snapshot events command wait_until others local_peers provision_from all_know
    provision_known_peers put_label put_all insert_text peers_of all_texts in_set is_unstable
    relevant links_ready selected_peers check_stable check_links assert_links max_ℤ twins_read
twins_run = refl

abbrev told : List Fields
told =
    field "sequence" (int (pos 7)) (
      field "type" (str "verificationRequired")
        (field "peerId" (str "B") (field "sas" (str "4711") end)))
    ∷ []

twins_poll : events lonely alpha twins_read ≡ (ok told, twins_polled)
unfolding str_eq get_or is_str truthy elements holds_text find_field show show_int pure raise lift
    catch raise_if raise_unless or_raise fold for_each map_each all_of and_then ok_or ◌>>=◌
    monotonic sleep while_before loop_for poll wait base value_get advance advance_all dicts
    set_cursor request snapshot events command wait_until others local_peers provision_from all_know
    provision_known_peers put_label put_all insert_text peers_of all_texts in_set is_unstable
    relevant links_ready selected_peers check_stable check_links assert_links max_ℤ twins_read
    twins_polled
twins_poll = refl

twins_shoot :
    snapshot lonely alpha twins_polled ≡ (ok (field "localPeerId" (str "A") end), twins_shot)
unfolding str_eq get_or is_str truthy elements holds_text find_field show show_int pure raise lift
    catch raise_if raise_unless or_raise fold for_each map_each all_of and_then ok_or ◌>>=◌
    monotonic sleep while_before loop_for poll wait base value_get advance advance_all dicts
    set_cursor request snapshot events command wait_until others local_peers provision_from all_know
    provision_known_peers put_label put_all insert_text peers_of all_texts in_set is_unstable
    relevant links_ready selected_peers check_stable check_links assert_links max_ℤ twins_read
    twins_polled twins_shot
twins_shoot = refl

told-NamesPeer : All NamesPeer told
unfolding in_set str_eq get_or is_str
told-NamesPeer = (inl refl, tt)

equal_labels_expect_nothing_example :
    (peers_of "alpha" (("alpha", "B") ∷ []) ≡ [])
    × (check_links lonely "IT-041" phase (("alpha", "B") ∷ []) alpha twins_read
        ≡ (ok tt, twins_shot))
unfolding get_or str_eq
equal_labels_expect_nothing_example =
    equal_labels_expect_nothing lonely twins "alpha" "IT-041" phase (("alpha", "B") ∷ []) alpha told
      (field "localPeerId" (str "A") end) start_lonely twins_read twins_polled twins_shot
      (refl, (refl, tt)) twins_run refl twins_poll told-NamesPeer twins_shoot refl

Keeps-traffic_window_example :
    Keeps
      (total network (network_of-IsEnv answer))
      (traffic_window network "IT-041" (alpha, beta) none 30)
Keeps-traffic_window_example =
    Keeps-traffic_window network (network_of-IsEnv answer) "IT-041" (alpha, beta) none 30
