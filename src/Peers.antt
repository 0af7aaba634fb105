-- ===== src/Peers.antt =====
-- `Runner.peer_id`, `backend_resource_counts`, `provision_known_peers` and `assert_discovery`.
pub mod Total
pub mod Provisioned
use local_peer_connections.Prelude.{
  ℕ, suc, ◌+◌, String, ◌<>◌, Bool, true, false, ◌&&◌, Option, none, some, List, [], ◌∷◌, ◌==◌,
  if◌then◌else◌,
}
use local_peer_connections.Python.Value.{
  Value, Fields, str, list, dict, nil, end, field, get, get_or, is_str, holds_text, truthy,
}
use local_peer_connections.Exec.{
  text, failure, builtin, type_error, Result, ok, Exec, and_then, ok_or, pure, lift, ◌>>=◌, ◌>>◌,
  raise_unless, or_raise, for_each, map_each, all_of,
}
use local_peer_connections.World.{Env, State}
use local_peer_connections.Api.{Api, label, snapshot, events, command}
use local_peer_connections.Runner.{Runner, walk, wait_until}
use local_peer_connections.Connect.{local_peer}

-- The `connections` of a snapshot.
abbrev pub connections : Fields → Value
connections d = get_or "connections" (list nil) d

-- Whether some listed dict has the peer id.
unfoldable pub lists_peer : String → List Value → Bool
lists_peer peer [] = false
lists_peer peer (dict c ∷ rest) =
    if is_str peer (get "peerId" c) then true else lists_peer peer rest
lists_peer peer (_ ∷ rest) = lists_peer peer rest

pub record Counts : Type 0 where
  pub listen_gatt : ℕ
  pub start_advertising : ℕ
  pub start_discovery : ℕ

abbrev pub no_counts : Counts
no_counts = record { listen_gatt = 0; start_advertising = 0; start_discovery = 0 }

-- `f"invoke method={method}" in message`, as 0 or 1.
abbrev mentions : String → Value → Result ℕ
mentions method message =
    and_then (ok_or (holds_text ("invoke method=" <> method) message) (builtin type_error))
      (λ found. ok (if found then 1 else 0))

unfoldable pub count_event : Fields → Counts → Result Counts
count_event event c =
    if is_str "lpcBackendLog" (get "type" event)
    then (let message = get_or "message" (str "") event in
        and_then (mentions "listenGatt" message) (λ g.
          and_then (mentions "startAdvertising" message) (λ a.
            and_then (mentions "startDiscovery" message) (λ d. ok (record {
              listen_gatt = c.listen_gatt + g;
              start_advertising = c.start_advertising + a;
              start_discovery = c.start_discovery + d;
            })))))
    else ok c

unfoldable pub count_events : List Fields → Counts → Result Counts
count_events [] c = ok c
count_events (event ∷ rest) c = and_then (count_event event c) (count_events rest)

unfoldable pub same_counts : Counts → Counts → Bool
same_counts c d =
    (c.listen_gatt == d.listen_gatt)
    && ((c.start_advertising == d.start_advertising) && (c.start_discovery == d.start_discovery))

-- The peer ids of the other devices, of those numbered from `i` on.
unfoldable pub others : {A : Type 0} → ℕ → ℕ → List A → List A
others index i [] = []
others index i (p ∷ rest) = let r = others index (suc i) rest in if index == i then r else p ∷ r

-- The peer ids of all snapshots, if each has one.
unfoldable pub local_peers : List Fields → Option (List String)
local_peers [] = some []
local_peers (d ∷ rest) = elim (local_peer d) [
  | none ↦ none
  | some p ↦ elim (local_peers rest) [ none ↦ none | some ps ↦ some (p ∷ ps) ]
]

module _ (E : Env) where
  unfoldable pub peer_id : Api → Api → Exec (State E) String
  peer_id api other = do
    there ← snapshot E other
    other_peer ←
        or_raise (local_peer there)
          (failure (text (label other) ∷ text ": local PeerId is unavailable" ∷ []))
    here ← snapshot E api
    listed ← lift (walk (connections here))
    raise_unless (lists_peer other_peer listed)
        (failure (text (label api) ∷ text ": no authenticated peer for " ∷ text (label other) ∷ []))
    pure other_peer

  unfoldable pub backend_resource_counts : Api → Exec (State E) Counts
  backend_resource_counts api = do polled ← events E api; lift (count_events polled no_counts)

  unfoldable pub is_discovered : Api → Exec (State E) Bool
  is_discovered api = do d ← snapshot E api; pure (truthy (get "endpoints" d))

  unfoldable pub assert_discovery : Runner → Exec (State E) (Unit {0})
  assert_discovery runner =
      wait_until E (all_of is_discovered runner.apis) (text "bidirectional LPC discovery" ∷ [])
        runner.timeout

  provision_peer : Api → String → Exec (State E) (Unit {0})
  provision_peer api peer = do
    command E api "provisionKnownPeer" (field "peerId" (str peer) end) none
    pure tt

  knows : Api → String → Exec (State E) Bool
  knows api peer = do
    d ← snapshot E api
    lift (ok_or (holds_text peer (get_or "knownPeerIds" (list nil) d)) (builtin type_error))

  -- `for index, api in enumerate(apis)`, over the peer ids of the other devices.
  unfoldable pub provision_from : List String → ℕ → List Api → Exec (State E) (Unit {0})
  unfolding provision_peer
  provision_from peers index [] = pure tt
  provision_from peers index (api ∷ rest) = do
    for_each (provision_peer api) (others index 0 peers)
    provision_from peers (suc index) rest

  unfoldable pub all_know : List String → ℕ → List Api → Exec (State E) Bool
  unfolding knows
  all_know peers index [] = pure true
  all_know peers index (api ∷ rest) = do
    held ← all_of (knows api) (others index 0 peers)
    if held then all_know peers (suc index) rest else pure false

  unfoldable pub provision_known_peers : Runner → Exec (State E) (Unit {0})
  provision_known_peers runner = do
    snapshots ← map_each (snapshot E) runner.apis
    peers ←
        or_raise (local_peers snapshots)
          (failure (text "cannot provision friends before PeerIds are ready" ∷ []))
    provision_from peers 0 runner.apis
    wait_until E (all_know peers 0 runner.apis) (text "known-peer provisioning" ∷ []) runner.timeout
