-- ===== src/Scenario/Load.antt =====
-- The scenarios that use both directions at once: IT-021 (symmetric connect), IT-041 (fixed rate)
-- and IT-042 (group), and what IT-043 shares with them.
pub mod Ramp
pub mod Delivered
pub mod Total
use Prim.Native.Nat.{max}
use local_peer_connections.Prelude.{
  ℕ, zero, suc, ◌+◌, ◌*◌, ◌/◌, String, Bool, true, false, not, ◌&&◌, ◌||◌, Option, none, some, List,
  [], ◌∷◌, ◌++◌, ◌==◌, length, if◌then◌else◌,
}
use local_peer_connections.Prelude.Int.{pos}
use local_peer_connections.Python.Value.{
  Value, Fields, int, float, str, list, dict, nil, cons, end, characters, field, get, get_or,
  is_str, is_number, is_false, truthy, same_value, find_field,
}
use local_peer_connections.Python.Number.{add, multiply, less, divide}
use local_peer_connections.Exec.{
  text, shown, formatted, Message, failure, builtin, attribute_error, key_error, index_error,
  type_error, Result, ok, err, Exec, and_then, ok_or, pure, raise, lift, ◌>>=◌, ◌>>◌, raise_if,
  raise_unless, for_each, all_of,
}
use local_peer_connections.World.{Env, State}
use local_peer_connections.Loop.{monotonic}
use local_peer_connections.Api.{Api, label, value_get, snapshot, command}
use local_peer_connections.Runner.{Runner, drain_events, reset_all, wait_until, wait_for_event}
use local_peer_connections.Connect.{connect}
use local_peer_connections.Peers.{connections, peer_id}
use local_peer_connections.Links.{
  put_label, look, assert_links, wait_for_links, watch, stability_window,
  ensure_bidirectional_ready,
}
use local_peer_connections.Scenario.{first_two, has_length, has_connections, both, is_intact}
use local_peer_connections.Scenario.Groups.{subscript, create_group, wait_group}

abbrev pub traffic_arguments : String → ℕ → ℕ → Fields → Fields
traffic_arguments peer size rate rest = field "peerId" (str peer) (
    field "messageSize" (int (pos size)) (
      field "messagesPerSecond" (int (pos rate)) (field "deliveryMode" (str "reliableAcked") rest)))

-- `snapshot.get("trafficTests", {}).get("direct", {})`
unfoldable pub direct_traffic : Fields → Result Value
direct_traffic d = value_get "direct" (dict end) (get_or "trafficTests" (dict end) d)

-- The counters of a traffic test.
pub record Traffic : Type 0 where
  pub sent : Value
  pub acked : Value
  pub timed_out : Value
  pub fields : Fields

-- The reads of the counters; the first `get` fails on a value that is no dict.
unfoldable pub read_traffic : Value → Result Traffic
read_traffic (dict d) = ok (record {
  sent = get_or "sent" (int (pos 0)) d;
  acked = get_or "acked" (int (pos 0)) d;
  timed_out = get_or "timedOut" (int (pos 0)) d;
  fields = d;
})
read_traffic _ = err (builtin attribute_error)

-- `v[0]`
unfoldable pub item_zero : Value → Result Value
item_zero (list nil) = err (builtin index_error)
item_zero (list (cons v vs)) = ok v
item_zero (dict d) = err (builtin key_error)
item_zero (str s) = elim (characters s) [ [] ↦ err (builtin index_error) | c ∷ rest ↦ ok c ]
item_zero _ = err (builtin type_error)

-- `v[0].get("state") == "ready"`
unfoldable pub first_ready : Value → Result Bool
first_ready v =
    and_then (item_zero v)
      (λ c. and_then (value_get "state" Value.null c) (λ state. ok (is_str "ready" state)))

-- `len(connections) == 1 and connections[0].get("state") == "ready"`
unfoldable pub single_ready : Value → Result Bool
single_ready listed =
    and_then (has_length 1 listed) (λ single. if single then first_ready listed else ok false)

module _ (E : Env) where
  -- The end of an action, as a value.
  unfoldable pub capture : {A : Type 0} → Exec (State E) A → Exec (State E) (Result A)
  capture m s = let (r, t) = m s in (ok r, t)

  scheduled : Exec (State E) Bool
  scheduled s = let (b, w) = E.second_first s.world in (ok b, record s { world = w })

  -- `result()` of the first raises before that of the second.
  results : {A B : Type 0} → Result A → Result B → Exec (State E) (A × B)
  results r q = do a ← lift r; b ← lift q; pure (a, b)

  -- Two jobs of a thread pool, each with one request: both run, in either order.
  unfoldable pub in_parallel :
      {A B : Type 0} → Exec (State E) A → Exec (State E) B → Exec (State E) (A × B)
  unfolding scheduled results
  in_parallel m n = do
    second_first ← scheduled
    if second_first
        then (do q ← capture n; r ← capture m; results r q)
        else (do r ← capture m; q ← capture n; results r q)

  unfoldable pub start_both : Api → Api → Fields → Fields → Exec (State E) (Fields × Fields)
  start_both first second mine yours =
      in_parallel (command E first "startSendTest" mine none)
        (command E second "startSendTest" yours none)

  unfoldable pub stop_both : Api → Api → Option ℕ → Exec (State E) (Fields × Fields)
  stop_both first second timeout =
      in_parallel (command E first "stopSendTest" end timeout)
        (command E second "stopSendTest" end timeout)

  -- The checks of IT-041 on the counters that one device reports when it stops.
  unfoldable pub check_fixed_rate : Api → Fields → Exec (State E) (Unit {0})
  check_fixed_rate api d = do
    found ← lift (direct_traffic d)
    t ← lift (read_traffic found)
    raise_unless (is_false (get "running" t.fields))
        (failure (text "IT-041: traffic did not stop on " ∷ text (label api) ∷ []))
    raise_unless
        (is_number 64 (get "messageSize" t.fields)
          && is_number 5 (get "messagesPerSecond" t.fields))
        (failure (
          text "IT-041: wrong traffic configuration on "
          ∷ text (label api)
          ∷ text ": "
          ∷ shown found
          ∷ []))
    short ← lift (less E.arithmetic t.sent (int (pos 295)))
    raise_if short (
        failure (
          text "IT-041: "
          ∷ text (label api)
          ∷ text " sent only "
          ∷ shown t.sent
          ∷ text "/"
          ∷ shown (int (pos 300))
          ∷ text " packets"
          ∷ []))
    raise_unless (same_value t.acked t.sent && is_number 0 t.timed_out) (
        failure (
          text "IT-041: "
          ∷ text (label api)
          ∷ text " ACK/loss mismatch: sent="
          ∷ shown t.sent
          ∷ text ", acked="
          ∷ shown t.acked
          ∷ text ", timedOut="
          ∷ shown t.timed_out
          ∷ []))

  -- The steps with which IT-041 and IT-043 begin: each device, and the peer that it sends to.
  unfoldable pub link_pair : Runner → String → Exec (State E) ((Api × String) × (Api × String))
  link_pair runner scenario = do
    reset_all E runner
    (first, second) ← lift (first_two runner.apis)
    ensure_bidirectional_ready E runner scenario first second
    first_target ← peer_id E first second
    second_target ← peer_id E second first
    drain_events E runner
    wait_for_links E runner scenario
    stability_window E runner scenario 3
    pure ((first, first_target), (second, second_target))

  unfoldable pub scenario_bidirectional_fixed_rate : Runner → Exec (State E) (Unit {0})
  scenario_bidirectional_fixed_rate runner = do
    ((first, first_target), (second, second_target)) ← link_pair runner "IT-041"
    start_both first second (traffic_arguments first_target 64 5 end)
        (traffic_arguments second_target 64 5 end)
    watch E 500 60000 (assert_links E runner "IT-041" (shown (int (pos 0)) ∷ []))
    (mine, yours) ← stop_both first second none
    check_fixed_rate first mine
    check_fixed_rate second yours
    stability_window E runner "IT-041" 30

  -- The test of IT-042 on one device, with its two snapshots.
  unfoldable pub has_single_ready : Api → Exec (State E) Bool
  has_single_ready api = do
    d ← snapshot E api
    single ← lift (has_length 1 (connections d))
    if single
        then (do
          d' ← snapshot E api
          lift (and_then (subscript "connections" (dict d')) first_ready))
        else pure false

  unfoldable pub check_single_ready : Api → Exec (State E) (Unit {0})
  check_single_ready api = do
    d ← snapshot E api
    held ← lift (single_ready (connections d))
    raise_unless held (
        failure (
          text "IT-042: connection left ready after bidirectional group send on "
          ∷ text (label api)
          ∷ []))

  abbrev group_message : String → Fields
  group_message peer = field "peerId" (str peer) (field "size" (int (pos 64)) end)

  unfoldable pub scenario_bidirectional_group : Runner → Exec (State E) (Unit {0})
  scenario_bidirectional_group runner = do
    reset_all E runner
    (first, second) ← lift (first_two runner.apis)
    connect E runner first second
    create_group E runner false
    wait_group E runner 2
    wait_until E (all_of has_single_ready (first ∷ second ∷ []))
        (text "ready connections before bidirectional group send" ∷ []) runner.timeout
    drain_events E runner
    first_target ← peer_id E first second
    second_target ← peer_id E second first
    in_parallel (command E first "sendGroup" (group_message first_target) none)
        (command E second "sendGroup" (group_message second_target) none)
    wait_for_event E second "groupMessageReceived" (is_intact 64) runner.timeout
    wait_for_event E first "groupMessageReceived" (is_intact 64) runner.timeout
    for_each check_single_ready (first ∷ second ∷ [])

  -- IT-021. `dial_both` stands for the two calls of `connect` in a thread pool, one each way, whose
  -- steps interleave; here it comes back when both have returned, or raises.
  unfoldable pub scenario_symmetric_connect :
      (Runner → Api → Api → Exec (State E) (Unit {0})) → Runner → Exec (State E) (Unit {0})
  scenario_symmetric_connect dial_both runner = do
    reset_all E runner
    (first, second) ← lift (first_two runner.apis)
    dial_both runner first second
    wait_until E (both E (has_connections E 1 first) (has_connections E 1 second))
        (text "one logical connection after symmetric connect" ∷ []) runner.timeout
