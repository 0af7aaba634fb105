-- ===== src/Links/Traffic.antt =====
-- `_assert_traffic_connections_ready` and `_assert_stable_traffic_window`, which check two devices
-- against a peer each. No scenario calls them now.
pub mod Total
use local_peer_connections.Prelude.{
  ℕ, ◌*◌, String, Bool, true, false, not, ◌&&◌, ◌||◌, Option, none, some, List, [], ◌∷◌, ◌++◌, map,
  ◌==◌, length, if◌then◌else◌,
}
use local_peer_connections.Python.Value.{
  Value, Values, Fields, null, str, list, dict, end, get, is_str, is_none, of_list, put,
}
use local_peer_connections.Exec.{
  text, shown, Message, failure, builtin, attribute_error, Result, ok, err, Exec, and_then, pure,
  raise, lift, ◌>>=◌, ◌>>◌, raise_if, for_each,
}
use local_peer_connections.World.{Env, State}
use local_peer_connections.Api.{Api, label, value_get, snapshot, events}
use local_peer_connections.Runner.{walk}
use local_peer_connections.Peers.{connections}
use local_peer_connections.Links.{look, lifecycle, in_set, watch}
use local_peer_connections.Prelude.{last}

-- `v == peer`, or no peer is expected.
abbrev pub concerns : Option String → Value → Bool
concerns none v = true
concerns (some peer) v = is_str peer v

unfoldable pub is_disturbed : Option String → Fields → Result Bool
is_disturbed expected event =
    and_then (in_set lifecycle (get "type" event)) (λ held.
      ok (held && (is_none (get "peerId" event) || concerns expected (get "peerId" event))))

-- `[c for c in connections if expected is None or c.get("peerId") == expected]`
unfoldable pub concerned : Option String → List Value → Result (List Value)
concerned none listed = ok listed
concerned (some peer) [] = ok []
concerned (some peer) (c ∷ rest) = and_then (value_get "peerId" null c) (λ v.
    and_then (concerned (some peer) rest)
      (λ found. ok (if is_str peer v then c ∷ found else found)))

-- `len(relevant) == 1 and relevant[0].get("state") == "ready"`
unfoldable pub only_ready : List Value → Result Bool
only_ready (c ∷ []) = and_then (value_get "state" null c) (λ v. ok (is_str "ready" v))
only_ready _ = ok false

abbrev pub diagnostic_keys : List String
diagnostic_keys = "type" ∷ "error" ∷ "status" ∷ "endpointId" ∷ "message" ∷ []

-- The entries of an event under these keys that are not null.
unfoldable pub summary : List String → Fields → Fields
summary [] event = end
summary (key ∷ keys) event =
    let rest = summary keys event in
    if is_none (get key event) then rest else Fields.field key (get key event) rest

abbrev pub optional : Option String → Value
optional none = null
optional (some s) = str s

abbrev pub event_summaries : List Fields → Value
event_summaries polled =
    list (of_list (map (λ event. dict (summary diagnostic_keys event)) (last 20 polled)))

module _ (E : Env) where
  unfoldable pub check_undisturbed : Message → Option String → Fields → Exec (State E) (Unit {0})
  check_undisturbed complaint expected event = do
    disturbed ← lift (is_disturbed expected event)
    raise_if disturbed (failure (complaint ++ shown (dict event) ∷ []))

  -- `expected_peers.get(label) if expected_peers is not None else None`
  abbrev pub expected_peer : Option (List (String × String)) → Api → Option String
  expected_peer none api = none
  expected_peer (some peers) api = look (label api) peers

  report_unready : String → Message → Option String → Value → Api → Exec (State E) (Unit {0})
  report_unready scenario phase expected listed api = do
    polled ← events E api
    raise (
        failure (
          text scenario ∷ text ": phase " ∷ phase
          ++ text " connection not READY on "
            ∷ text (label api)
            ∷ text "; expectedPeer="
            ∷ shown (optional expected)
            ∷ text "; connections="
            ∷ shown listed
            ∷ text "; diagnostics="
            ∷ shown (event_summaries polled)
            ∷ []))

  unfoldable pub check_traffic :
      String → Message → Option (List (String × String)) → Api → Exec (State E) (Unit {0})
  unfolding report_unready
  check_traffic scenario phase peers api = do
    let expected = expected_peer peers api
    polled ← events E api
    for_each
        (check_undisturbed
          (text scenario
              ∷ text ": transport instability on "
              ∷ text (label api)
              ∷ text " during phase "
              ∷ phase
            ++ text ": " ∷ [])
          expected)
        polled
    d ← snapshot E api
    listed ← lift (walk (connections d))
    found ← lift (concerned expected listed)
    ready ← lift (only_ready found)
    if ready then pure tt else report_unready scenario phase expected (connections d) api

  -- `_assert_traffic_connections_ready`
  unfoldable pub assert_traffic :
      String → Api × Api → Message → Option (List (String × String)) → Exec (State E) (Unit {0})
  assert_traffic scenario (first, second) phase peers =
      for_each (check_traffic scenario phase peers) (first ∷ second ∷ [])

  -- `_assert_stable_traffic_window`
  unfoldable pub traffic_window :
      String → Api × Api → Option (List (String × String)) → ℕ → Exec (State E) (Unit {0})
  traffic_window scenario devices peers seconds =
      watch E 500 (seconds * 1000)
        (assert_traffic scenario devices (text "post-drain-stability" ∷ []) peers)
