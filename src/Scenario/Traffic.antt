-- ===== src/Scenario/Traffic.antt =====
-- The scenarios IT-017 (soak), IT-018 and IT-019 (star) and IT-040 (mixed sizes both ways).
pub mod Total
use Prim.Native.Nat.{min, max}
use local_peer_connections.Prelude.{
  ℕ, zero, suc, ◌+◌, ◌-◌, ◌*◌, ◌/◌, String, not, some, List, [], ◌∷◌, leb, ltb, length, ◌==◌,
  if◌then◌else◌,
}
use local_peer_connections.Prelude.Int.{pos}
use local_peer_connections.Python.Value.{int}
use local_peer_connections.Exec.{
  text, shown, Message, failure, blocked, Exec, pure, lift, ◌>>=◌, ◌>>◌, raise_if, for_each, all_of,
}
use local_peer_connections.World.{Env, State}
use local_peer_connections.Loop.{Loop, done, more, monotonic, sleep, loop_for}
use local_peer_connections.Api.{Api, events, command}
use local_peer_connections.Runner.{Runner, drain_events, wait_for_event, reset_all, wait_until}
use local_peer_connections.Connect.{connect}
use local_peer_connections.Peers.{peer_id}
use local_peer_connections.Scenario.{
  first_two, nth, count_payloads, is_intact, reliable, send_reliable, check_ready, has_connections,
  both,
}

-- The first `n` elements.
abbrev pub take {ℓ} : {A : Type ℓ} → ℕ → List A → List A
take zero l = []
take (suc n) [] = []
take (suc n) (a ∷ l) = a ∷ take n l

-- `apis[1:n]`
abbrev pub targets {ℓ} : {A : Type ℓ} → ℕ → List A → List A
targets n [] = []
targets n (a ∷ l) = take (n - 1) l

-- How many messages IT-017 has sent and received.
pub record Tally : Type 0 where
  pub sent : ℕ
  pub received : ℕ

abbrev pub tally_of : Loop Tally → Tally
tally_of (done t) = t
tally_of (more t) = t

module _ (E : Env) (runner : Runner) where
  unfoldable pub soak_round : Api → Api → String → Tally → Exec (State E) (Loop Tally)
  soak_round source target peer t = do
    send_reliable E source peer 32
    for_each
        (check_ready E
          (λ device. text "IT-017: connection left ready state on " ∷ text device ∷ []))
        (source ∷ target ∷ [])
    polled ← events E target
    sleep E 1000
    pure (more (record { sent = t.sent + 1; received = t.received + count_payloads 32 polled }))

  unfoldable pub grace_round : Api → Tally → Exec (State E) (Loop Tally)
  grace_round target t =
      if ltb t.received t.sent
      then (do
        polled ← events E target
        sleep E 100
        pure (more (record t { received = t.received + count_payloads 32 polled })))
      else pure (done t)

  unfoldable pub scenario_soak : Exec (State E) ℕ
  scenario_soak = do
    reset_all E runner
    (source, target) ← lift (first_two runner.apis)
    connect E runner source target
    peer ← peer_id E source target
    sent ←
        loop_for E (runner.soak_seconds * 1000) (λ _. soak_round source target peer)
          (record { sent = 0; received = 0 })
    drained ← loop_for E (max runner.timeout 30000) (λ _. grace_round target) (tally_of sent)
    let t = tally_of drained
    raise_if (not (t.received == t.sent)) (
        failure (
          text "IT-017: received "
          ∷ shown (int (pos t.received))
          ∷ text "/"
          ∷ shown (int (pos t.sent))
          ∷ text " soak messages"
          ∷ []))
    pure t.received

  dial : Api → Api → Exec (State E) (Unit {0})
  dial center target = do connect E runner center target; pure tt

  unfoldable pub scenario_star : ℕ → Exec (State E) (Unit {0})
  unfolding dial
  scenario_star minimum_devices = do
    raise_if (ltb (length runner.apis) minimum_devices) (
        blocked (
          text "IT-018/019: requires at least "
          ∷ shown (int (pos minimum_devices))
          ∷ text " connected test devices"
          ∷ []))
    reset_all E runner
    center ← lift (nth runner.apis 0)
    for_each (dial center) (targets minimum_devices runner.apis)
    wait_until E
        (both E (has_connections E (minimum_devices - 1) center)
          (all_of (has_connections E 1) (targets minimum_devices runner.apis)))
        (shown (int (pos minimum_devices)) ∷ text "-device star" ∷ []) (max runner.timeout 120000)

  -- `int(deadline - time.monotonic())` seconds, in milliseconds and not below zero.
  abbrev seconds_left : ℕ → ℕ → ℕ
  seconds_left deadline now = (deadline - now) / 1000 * 1000

  abbrev exceeded : Message
  exceeded = text "IT-040: five-minute mixed-direction bound exceeded" ∷ []

  -- One message of IT-040.
  unfoldable pub exchange : ℕ → Api → Api → String → ℕ → Exec (State E) (Unit {0})
  exchange deadline source target peer size = do
    now ← monotonic E
    raise_if (leb deadline now) (failure exceeded)
    start ← monotonic E
    command E source "sendReliable" (reliable peer size)
        (some (min 30000 (max 10000 (seconds_left deadline start))))
    sent ← monotonic E
    wait_for_event E target "directMessageReceived" (is_intact size)
        (min 60000 (max 1000 (seconds_left deadline sent)))
    pure tt

  unfoldable pub scenario_bidirectional_mixed : Exec (State E) (Unit {0})
  scenario_bidirectional_mixed = do
    reset_all E runner
    (first, second) ← lift (first_two runner.apis)
    connect E runner first second
    drain_events E runner
    first_peer ← peer_id E second first
    second_peer ← peer_id E first second
    start ← monotonic E
    let deadline = start + 300000
    exchange deadline first second second_peer 32
    exchange deadline second first first_peer 262144
    exchange deadline first second second_peer 32
    exchange deadline second first first_peer 262144
    now ← monotonic E
    raise_if (leb deadline now) (failure exceeded)
    for_each
        (check_ready E
          (λ device. text "IT-040: " ∷ text device ∷ text " connection did not remain ready" ∷ []))
        (first ∷ second ∷ [])
