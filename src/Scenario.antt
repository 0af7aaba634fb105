-- ===== src/Scenario.antt =====
-- What the scenarios of the runner share: the two devices, the messages they send, and the tests
-- on what arrives.
pub mod Numbers
pub mod Total
pub mod Direct
pub mod Traffic
pub mod Groups
pub mod Routed
pub mod Load
pub mod Measured
pub mod Relay
pub mod Dispatch
use local_peer_connections.Prelude.{
  ℕ, ◌+◌, String, Bool, true, false, not, ◌&&◌, Option, none, some, List, [], ◌∷◌, ◌==◌,
  if◌then◌else◌,
}
use local_peer_connections.Prelude.Int.{pos}
use local_peer_connections.Python.Value.{
  Value, Fields, int, str, list, dict, nil, end, field, get, get_or, is_str, is_number, truthy,
  value_length,
}
use local_peer_connections.Exec.{
  text, Message, Error, failure, builtin, value_error, index_error, type_error, Result, ok, err,
  Exec, ok_or, pure, raise, lift, ◌>>=◌, ◌>>◌, raise_if, for_each,
}
use local_peer_connections.World.{Env, State}
use local_peer_connections.Api.{Api, label, value_get, snapshot, command}
use local_peer_connections.Runner.{Runner, Test, walk}
use local_peer_connections.Digest.{payload_digest}
use local_peer_connections.Peers.{connections}

-- `source, target = self.apis[:2]`
unfoldable pub first_two : List Api → Result (Api × Api)
first_two (a ∷ b ∷ rest) = ok (a, b)
first_two _ = err (builtin value_error)

-- `self.apis[i]`
unfoldable pub nth : List Api → ℕ → Result Api
nth [] i = err (builtin index_error)
nth (a ∷ rest) ℕ.zero = ok a
nth (a ∷ rest) (ℕ.suc i) = nth rest i

-- A message of the given size, intact, as an event of the given type.
unfoldable pub is_payload : String → ℕ → Fields → Bool
is_payload type size event =
    is_str type (get "type" event)
    && (is_number size (get "bytes" event) && is_str (payload_digest size) (get "digest" event))

abbrev pub has_bytes : ℕ → Test
has_bytes size event = ok (is_number size (get "bytes" event))

-- The test on the size and the digest, as the lambdas of `wait_for_event` have it.
unfoldable pub is_intact : ℕ → Test
is_intact size event =
    ok (is_number size (get "bytes" event) && is_str (payload_digest size) (get "digest" event))

-- `sum(1 for event in events if …)`
unfoldable pub count_payloads : ℕ → List Fields → ℕ
count_payloads size [] = 0
count_payloads size (event ∷ rest) =
    (if is_payload "directMessageReceived" size event then 1 else 0) + count_payloads size rest

abbrev pub reliable : String → ℕ → Fields
reliable peer size =
    field "peerId" (str peer)
      (field "size" (int (pos size)) (field "deliveryMode" (str "reliableAcked") end))

-- `len(v) == n`
abbrev pub has_length : ℕ → Value → Result Bool
has_length n v = elim (value_length v) [ some m ↦ ok (m == n) | none ↦ err (builtin type_error) ]

module _ (E : Env) where
  unfoldable pub act : Api → String → Fields → Exec (State E) (Unit {0})
  act api action arguments = do command E api action arguments none; pure tt

  unfoldable pub send_reliable : Api → String → ℕ → Exec (State E) (Unit {0})
  send_reliable api peer size = act api "sendReliable" (reliable peer size)

  check_state : Message → Value → Exec (State E) (Unit {0})
  check_state complaint connection = do
    state ← lift (value_get "state" Value.null connection)
    raise_if (not (is_str "ready" state)) (failure complaint)

  -- Raises at the first connection of the device that is not ready.
  unfoldable pub check_ready : (String → Message) → Api → Exec (State E) (Unit {0})
  unfolding check_state
  check_ready complaint api = do
    d ← snapshot E api
    listed ← lift (walk (connections d))
    for_each (check_state (complaint (label api))) listed

  -- `not api.snapshot().get("connections")`
  unfoldable pub is_unconnected : Api → Exec (State E) Bool
  is_unconnected api = do d ← snapshot E api; pure (not (truthy (get "connections" d)))

  unfoldable pub has_connections : ℕ → Api → Exec (State E) Bool
  has_connections n api = do d ← snapshot E api; lift (has_length n (connections d))

  -- `m() and n()`
  unfoldable pub both : Exec (State E) Bool → Exec (State E) Bool → Exec (State E) Bool
  both m n = do held ← m; if held then n else pure false
