-- ===== src/Scenario/Direct.antt =====
-- The scenarios on one direct connection: IT-001 to IT-006, IT-008, IT-009 and IT-010.
pub mod Total
use Prim.Native.Nat.{max}
use local_peer_connections.Prelude.{
  ℕ, zero, suc, ◌+◌, ◌-◌, ◌*◌, String, Bool, true, false, ◌&&◌, none, some, List, [], ◌∷◌, leb, ltb,
  if◌then◌else◌,
}
use local_peer_connections.Prelude.Int.{pos}
use local_peer_connections.Python.Value.{
  Value, Fields, int, list, of_list, str, end, field, get, as_str, is_str, is_number,
}
use local_peer_connections.Exec.{
  text, shown, failure, Exec, pure, lift, ◌>>=◌, ◌>>◌, raise_if, raise_unless, for_each, fold,
  map_each,
}
use local_peer_connections.World.{Env, State}
use local_peer_connections.Loop.{Loop, done, more, sleep, loop_for}
use local_peer_connections.Api.{Api, snapshot, events}
use local_peer_connections.Runner.{Runner, reset_all, wait_until}
use local_peer_connections.Connect.{connect}
use local_peer_connections.Digest.{payload_digest}
use local_peer_connections.Peers.{peer_id, assert_discovery}
use local_peer_connections.Scenario.{
  first_two, nth, count_payloads, act, send_reliable, check_ready, is_unconnected, both,
}

-- `not (before != after or any(not isinstance(value, str) for value in after))`
unfoldable pub is_stable : List Value → List Value → Bool
is_stable [] [] = true
is_stable (v ∷ before) (w ∷ after) = elim (as_str w) [
  | none ↦ false
  | some s ↦ is_str s v && is_stable before after
]
is_stable _ _ = false

module _ (E : Env) (runner : Runner) where
  pair : Exec (State E) (Api × Api)
  pair = lift (first_two runner.apis)

  unfoldable pub scenario_discovery : Exec (State E) (Unit {0})
  scenario_discovery = assert_discovery E runner

  unfoldable pub scenario_connect : ℕ → Exec (State E) (Unit {0})
  scenario_connect source_index = do
    reset_all E runner
    source ← lift (nth runner.apis source_index)
    target ← lift (nth runner.apis (1 - source_index))
    connect E runner source target
    pure tt

  abbrev peer_value : Api → Exec (State E) Value
  peer_value api = do d ← snapshot E api; pure (get "localPeerId" d)

  unfoldable pub scenario_identity : Exec (State E) (Unit {0})
  unfolding pair
  scenario_identity = do
    reset_all E runner
    (source, target) ← pair
    connect E runner source target
    before ← map_each peer_value runner.apis
    peer ← peer_id E source target
    act E source "disconnectPeer" (field "peerId" (str peer) end)
    wait_until E (both E (is_unconnected E source) (is_unconnected E target))
        (text "explicit connection teardown before identity reconnect" ∷ []) runner.timeout
    connect E runner source target
    after ← map_each peer_value runner.apis
    raise_unless (is_stable before after) (
        failure (
          text "IT-005: identity changed across reconnect: "
          ∷ shown (list (of_list before))
          ∷ text " -> "
          ∷ shown (list (of_list after))
          ∷ []))

  unfoldable pub scenario_sas : Exec (State E) (Unit {0})
  unfolding pair
  scenario_sas = do
    reset_all E runner
    (source, target) ← pair
    saw ← connect E runner source target
    raise_unless saw (
        failure (
          text "IT-006: no SAS verification event; launch both fixtures with "
          ∷ text "--dart-define=LPC_TEST_TRUST_MODE=sas"
          ∷ []))

  -- One round of the receiving loop of IT-008.
  unfoldable pub receive_until : Api → ℕ → ℕ → Exec (State E) (Loop ℕ)
  receive_until target goal received = do
    polled ← events E target
    let total = received + count_payloads 32 polled
    if leb goal total then pure (done total) else (do sleep E 100; pure (more total))

  repeat : ℕ → Exec (State E) (Unit {0}) → Exec (State E) (Unit {0})
  repeat zero m = pure tt
  repeat (suc n) m = do m; repeat n m

  abbrev received_in : Loop ℕ → ℕ
  received_in (done n) = n
  received_in (more n) = n

  -- The batch that follows `batch` batches; `received` is the count so far.
  unfoldable pub send_batch : Api → Api → String → ℕ → ℕ → Exec (State E) ℕ
  unfolding repeat
  send_batch source target peer batch received = do
    repeat 50 (send_reliable E source peer 32)
    ended ← loop_for E runner.timeout (λ _. receive_until target ((batch + 1) * 50)) received
    raise_if (ltb (received_in ended) ((batch + 1) * 50)) (
        failure (
          text "IT-008: only received "
          ∷ shown (int (pos (received_in ended)))
          ∷ text "/"
          ∷ shown (int (pos 1000))
          ∷ text " messages"
          ∷ []))
    pure (received_in ended)

  -- `for batch in range(20)`, with `left` batches to go.
  unfoldable pub send_batches : Api → Api → String → ℕ → ℕ → ℕ → Exec (State E) ℕ
  send_batches source target peer zero batch received = pure received
  send_batches source target peer (suc left) batch received = do
    total ← send_batch source target peer batch received
    send_batches source target peer left (batch + 1) total

  unfoldable pub scenario_messages : Exec (State E) ℕ
  unfolding pair
  scenario_messages = do
    reset_all E runner
    (source, target) ← pair
    connect E runner source target
    peer ← peer_id E source target
    send_batches source target peer 20 0 0

  -- One event of the large transfer; `received` becomes true at its message.
  unfoldable pub take_large : Fields → Bool → Exec (State E) Bool
  take_large event received =
      if is_str "directMessageReceived" (get "type" event) && is_number 1048576 (get "bytes" event)
      then (do
        raise_unless (is_str (payload_digest 1048576) (get "digest" event))
            (failure (text "IT-009: 1 MiB payload digest mismatch" ∷ []))
        pure true)
      else pure received

  unfoldable pub watch_large : Api → Api → Bool → Exec (State E) (Loop Bool)
  watch_large source target received = do
    polled ← events E target
    arrived ← fold take_large polled received
    for_each
        (check_ready E (λ device.
          text "IT-010: connection left ready state during transfer on " ∷ text device ∷ []))
        (source ∷ target ∷ [])
    if arrived then pure (done arrived) else (do sleep E 100; pure (more arrived))

  abbrev has_arrived : Loop Bool → Bool
  has_arrived (done b) = b
  has_arrived (more b) = b

  unfoldable pub scenario_large_message : Exec (State E) (Unit {0})
  unfolding pair
  scenario_large_message = do
    reset_all E runner
    (source, target) ← pair
    connect E runner source target
    peer ← peer_id E source target
    send_reliable E source peer 1048576
    ended ← loop_for E (max runner.timeout 120000) (λ _. watch_large source target) false
    raise_unless (has_arrived ended)
        (failure (text "timeout waiting for 1 MiB reliable message" ∷ []))
