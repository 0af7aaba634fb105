-- ===== src/Links.antt =====
-- The links between the selected devices: which peers each device is expected to show, the checks
-- on events and connections, the stability window, and `ensure_bidirectional_ready`.
pub mod Total
pub mod Traffic
pub mod Sound
pub mod Labels
pub mod Window
use Prim.Native.Nat.{min}
use package.text.Mathlib.Text.{is_le}
use Prim.Native.String.{compare}
use local_peer_connections.Prelude.{
  ℕ, ◌*◌, String, ◌<>◌, Bool, true, false, not, ◌&&◌, ◌||◌, Option, none, some, List, [], ◌∷◌, ◌++◌,
  map, str_eq, any, all, length, ◌==◌, if◌then◌else◌,
}
use local_peer_connections.Python.Value.{
  Value, Fields, str, list, dict, nil, get, get_or, as_str, is_str, is_none, of_list,
}
use local_peer_connections.Exec.{
  Piece, text, shown, Message, Error, failure, builtin, attribute_error, type_error, key_error,
  Result, ok, err, Exec, and_then, ok_or, pure, raise, lift, catch, message, ◌>>=◌, ◌>>◌, raise_if,
  raise_unless, for_each, map_each, all_of,
}
use local_peer_connections.World.{Env, State}
use local_peer_connections.Loop.{Loop, done, more, monotonic, sleep, loop_for, pause_before}
use local_peer_connections.Api.{Api, label, snapshot, events}
use local_peer_connections.Runner.{Runner, walk, drain_events, wait_until}
use local_peer_connections.Connect.{is_ready_with, connect}
use local_peer_connections.Peers.{connections}

-- `d[key] = v`, for a dict whose keys are labels.
unfoldable pub put_label {ℓ} : {A : Type ℓ} → String → A → List (String × A) → List (String × A)
put_label key v [] = (key, v) ∷ []
put_label key v ((k, w) ∷ rest) =
    if str_eq k key then (k, v) ∷ rest else (k, w) ∷ put_label key v rest

-- `{key: v for key, v in entries}`, on top of a dict.
unfoldable pub put_all {ℓ} :
    {A : Type ℓ} → List (String × A) → List (String × A) → List (String × A)
put_all [] d = d
put_all ((key, v) ∷ entries) d = put_all entries (put_label key v d)

unfoldable pub look {ℓ} : {A : Type ℓ} → String → List (String × A) → Option A
look key [] = none
look key ((k, v) ∷ rest) = if str_eq k key then some v else look key rest

-- A set of texts, as a list with no text twice.
unfoldable pub insert_text : String → List String → List String
insert_text s texts = if any (str_eq s) texts then texts else s ∷ texts

-- The peer ids of the devices with another label.
unfoldable pub peers_of : String → List (String × String) → List String
peers_of name [] = []
peers_of name ((other, peer) ∷ rest) =
    let found = peers_of name rest in if str_eq other name then found else insert_text peer found

-- The peer ids, if each is a text.
unfoldable pub all_texts : List (String × Value) → Option (List (String × String))
all_texts [] = some []
all_texts ((name, v) ∷ rest) = elim (as_str v) [
  | none ↦ none
  | some s ↦ elim (all_texts rest) [ none ↦ none | some found ↦ some ((name, s) ∷ found) ]
]

-- `sorted(texts)`
unfoldable pub insert_sorted : String → List String → List String
insert_sorted s [] = s ∷ []
insert_sorted s (t ∷ rest) = if is_le (compare s t) then s ∷ t ∷ rest else t ∷ insert_sorted s rest

unfoldable pub sorted : List String → List String
sorted [] = []
sorted (s ∷ rest) = insert_sorted s (sorted rest)

-- `v in texts`, for a set of texts: a list and a dict have no hash.
unfoldable pub in_set : List String → Value → Result Bool
in_set texts (list vs) = err (builtin type_error)
in_set texts (dict d) = err (builtin type_error)
in_set texts v = ok (any (λ s. is_str s v) texts)

abbrev pub lifecycle : List String
lifecycle = "peerReconnecting" ∷ "peerReconnected" ∷ "peerDisconnected" ∷ "connectFailed" ∷ []

-- `v in (None, *expected)`
abbrev pub is_none_or_in : List String → Value → Bool
is_none_or_in expected v = is_none v || any (λ s. is_str s v) expected

-- Whether an event tells of an unstable link to one of the expected peers.
unfoldable pub is_unstable : List String → Fields → Result Bool
is_unstable expected event =
    and_then (in_set lifecycle (get "type" event))
      (λ held. ok (held && is_none_or_in expected (get "peerId" event)))

-- The listed connections to the expected peers.
unfoldable pub relevant : List String → List Value → Result (List Fields)
relevant expected [] = ok []
relevant expected (dict c ∷ rest) =
    and_then (in_set expected (get "peerId" c))
      (λ held. and_then (relevant expected rest) (λ found. ok (if held then c ∷ found else found)))
relevant expected (_ ∷ rest) = err (builtin attribute_error)

abbrev pub is_ready : Fields → Bool
is_ready c = is_str "ready" (get "state" c)

-- The test on the snapshot of one device.
unfoldable pub links_ready : List String → Value → Result Bool
links_ready expected listed = and_then (walk listed) (λ vs.
    and_then (relevant expected vs)
      (λ found. ok ((length found == length expected) && all is_ready found)))

-- `all(c.get("state") == "ready" for c in connections if c.get("peerId") in expected)`
unfoldable pub relevant_ready : List String → List Value → Result Bool
relevant_ready expected [] = ok true
relevant_ready expected (dict c ∷ rest) = and_then (in_set expected (get "peerId" c)) (λ held.
    if held
    then (if is_ready c then relevant_ready expected rest else ok false)
    else relevant_ready expected rest)
relevant_ready expected (_ ∷ rest) = err (builtin attribute_error)

abbrev text_values : List String → Value
text_values texts = list (of_list (map str texts))

module _ (E : Env) where
  abbrev labelled_peer : Api → Exec (State E) (String × Value)
  labelled_peer api = do d ← snapshot E api; pure (label api, get "localPeerId" d)

  -- `_selected_expected_peers`: the peer id of each label.
  unfoldable pub selected_peers : Runner → Exec (State E) (List (String × String))
  selected_peers runner = do
    entries ← map_each labelled_peer runner.apis
    lift (
        ok_or (all_texts (put_all entries []))
          (failure (text "continuous traffic: a selected device has no local PeerId" ∷ [])))

  -- `for event in api.events(): if …: raise`
  unfoldable pub check_stable : Message → List String → Fields → Exec (State E) (Unit {0})
  check_stable complaint expected event = do
    unstable ← lift (is_unstable expected event)
    raise_if unstable (failure (complaint ++ shown (dict event) ∷ []))

  unfoldable pub check_links :
      String → Message → List (String × String) → Api → Exec (State E) (Unit {0})
  check_links scenario phase peers api = do
    let expected = peers_of (label api) peers
    polled ← events E api
    for_each
        (check_stable
          (text scenario
              ∷ text ": transport instability on "
              ∷ text (label api)
              ∷ text " during phase "
              ∷ phase
            ++ text ": " ∷ [])
          expected)
        polled
    d ← snapshot E api
    ready ← lift (links_ready expected (connections d))
    raise_unless ready (
        failure (
          text scenario
          ∷ text ": selected links not READY on "
          ∷ text (label api)
          ∷ text "; expectedPeers="
          ∷ shown (text_values (sorted expected))
          ∷ text " connections="
          ∷ shown (connections d)
          ∷ []))

  -- `_assert_selected_connections_ready`
  unfoldable pub assert_links : Runner → String → Message → Exec (State E) (Unit {0})
  assert_links runner scenario phase = do
    peers ← selected_peers runner
    for_each (check_links scenario phase peers) runner.apis

  -- The test of `_wait_for_selected_connections` on one device, with its two snapshots.
  unfoldable pub sees_all : List (String × String) → Api → Exec (State E) Bool
  sees_all peers api = do
    let expected = peers_of (label api) peers
    d ← snapshot E api
    found ← lift (and_then (walk (connections d)) (relevant expected))
    if length found == length expected
        then (do
          d' ← snapshot E api
          lift (and_then (walk (connections d')) (relevant_ready expected)))
        else pure false

  unfoldable pub all_linked : Runner → Exec (State E) Bool
  all_linked runner = do peers ← selected_peers runner; all_of (sees_all peers) runner.apis

  unfoldable pub wait_for_links : Runner → String → Exec (State E) (Unit {0})
  wait_for_links runner scenario = do
    wait_until E (all_linked runner) (text scenario ∷ text " all selected links READY" ∷ [])
        (min runner.timeout 30000)
    drain_events E runner

  -- A loop that checks and then pauses, until its deadline.
  unfoldable pub watch_round :
      ℕ → Exec (State E) (Unit {0}) → ℕ → Unit {0} → Exec (State E) (Loop (Unit {0}))
  watch_round longest check deadline l = do
    check
    now ← monotonic E
    sleep E (pause_before longest deadline now)
    pure (more tt)

  unfoldable pub watch : ℕ → ℕ → Exec (State E) (Unit {0}) → Exec (State E) (Unit {0})
  watch longest duration check = do loop_for E duration (watch_round longest check) tt; pure tt

  -- `_assert_selected_stability_window`
  unfoldable pub stability_window : Runner → String → ℕ → Exec (State E) (Unit {0})
  stability_window runner scenario seconds =
      watch 500 (seconds * 1000) (assert_links runner scenario (text "post-drain-stability" ∷ []))

  -- `pair_ready`
  unfoldable pub pair_ready : Api → Api → Option String → Option String → Exec (State E) Bool
  pair_ready first second (some first_peer) (some second_peer) = do
    d ← snapshot E first
    held ← lift (is_ready_with first_peer d)
    if held then (do d' ← snapshot E second; lift (is_ready_with second_peer d')) else pure false
  pair_ready first second _ _ = pure false

  abbrev arrow : Api → Api → String
  arrow source target = label source <> ("->" <> label target)

  abbrev dial_back : Runner → String → Api → Api → Error → Error → Exec (State E) String
  dial_back runner scenario first second auto first_error =
      catch (do connect E runner second first; pure (arrow second first))
        (λ second_error. raise (
          failure (
            text scenario ∷ text ": automatic connection failed (" ∷ message auto
            ++ text "); neither explicit direction succeeded: " ∷ message first_error
            ++ text "; " ∷ message second_error)))

  unfoldable pub ensure_bidirectional_ready : Runner → String → Api → Api → Exec (State E) String
  ensure_bidirectional_ready runner scenario first second = do
    there ← snapshot E second
    here ← snapshot E first
    catch
        (do
          wait_until E
              (pair_ready first second (as_str (get "localPeerId" there))
                (as_str (get "localPeerId" here)))
              (text "known-peer connection ready on both devices" ∷ []) (min runner.timeout 30000)
          pure "known-peer auto-connect")
        (λ auto.
          catch (do connect E runner first second; pure (arrow first second))
            (dial_back runner scenario first second auto))
