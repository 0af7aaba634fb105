-- ===== src/Scenario/Relay/Steps.antt =====
-- What the steps of IT-046 keep of the requests that have been sent.
use local_peer_connections.Prelude.{ℕ, String, Bool, true, false, refl, none, some}
use local_peer_connections.Python.Value.{Value}
use local_peer_connections.Exec.{Error, Exec}
use local_peer_connections.Exec.Contract.{
  Contract, Keeps, Keeps-bind, Keeps-if, Keeps-pure, keeps_rules,
}
use local_peer_connections.World.{Request, Env, State}
use local_peer_connections.Api.{Api, request_to, command_body}
use local_peer_connections.Runner.{Runner}
use local_peer_connections.Scenario.{act, send_reliable, reliable, both}
use local_peer_connections.Trace.{traced}
use local_peer_connections.Trace.Steps.{
  Logged, Keeps-silent, Keeps-command, Keeps-monotonic, Keeps-sleep, Keeps-lifted, Keeps-snapshot,
  Keeps-drain_events, Keeps-loop_for, Keeps-wait_until,
}
use local_peer_connections.Scenario.Relay.{
  Trio, block_arguments, set_metric, connection, direct, relay, messages_received, set_blocked,
  edges_direct, mutual_relay, direct_again, send_both, hold_round, partitioned, record_recovery,
  deliver_by_relay, recover_late, recovery,
}

-- The request that cuts or restores the edge of a device to a peer.
abbrev pub block_request : Api → String → Bool → Request
block_request api peer is_blocked =
    request_to api "POST" "/command"
      (some (command_body "setDirectPeerBlockedForTesting" (block_arguments peer is_blocked)))

module _ (E : Env) {C : Contract (State (traced E))} {Plain : Request → Type 0}
    (L : Logged E C Plain)
    (plain_get : (api : Api) (path : String) → Plain (request_to api "GET" path none))
    (plain_send : (api : Api) (peer : String) (size : ℕ)
      → Plain (
          request_to api "POST" "/command"
            (some (command_body "sendReliable" (reliable peer size))))) where
  error_allowed : (e : Error) → C.allows e
  error_allowed e = L.any_error e

  Keeps-both :
      (m n : Exec (State (traced E)) Bool) → Keeps C m → Keeps C n → Keeps C (both (traced E) m n)
  unfolding both
  Keeps-both m n h k = Keeps-bind _ _ h (λ held. Keeps-if held _ _ (λ _. k) (λ _. Keeps-pure false))

  Keeps-set_metric : (key : String) (v : Value) → Keeps C (set_metric (traced E) key v)
  unfolding set_metric
  Keeps-set_metric key v = Keeps-silent E L _ (λ s. refl)

  ruleset quiet_rules = (
    keeps_rules, Keeps-both, Keeps-set_metric, Keeps-monotonic, Keeps-sleep, Keeps-lifted,
    Keeps-snapshot, Keeps-drain_events, Keeps-wait_until, error_allowed,
  )

  Keeps-connection : (api : Api) (peer : String) → Keeps C (connection (traced E) api peer)
  unfolding connection
  Keeps-connection api peer = search (quiet_rules, plain_get) depth 12

  Keeps-direct : (api : Api) (peer : String) → Keeps C (direct (traced E) api peer)
  unfolding direct
  Keeps-direct api peer = search (keeps_rules, Keeps-connection) depth 12

  Keeps-relay : (via : String) (api : Api) (peer : String) → Keeps C (relay (traced E) via api peer)
  unfolding relay
  Keeps-relay via api peer = search (keeps_rules, Keeps-connection) depth 12

  Keeps-messages_received : (api : Api) → Keeps C (messages_received (traced E) api)
  unfolding messages_received
  Keeps-messages_received api = search (quiet_rules, plain_get) depth 12

  module _ (runner : Runner) (t : Trio) where
    pub Keeps-edges_direct : Keeps C (edges_direct (traced E) runner t)
    unfolding edges_direct
    Keeps-edges_direct = search (Keeps-both, Keeps-direct) depth 12

    Keeps-mutual_relay : Keeps C (mutual_relay (traced E) runner t)
    unfolding mutual_relay
    Keeps-mutual_relay = search (Keeps-both, Keeps-relay) depth 12

    Keeps-direct_again : Keeps C (direct_again (traced E) runner t)
    unfolding direct_again
    Keeps-direct_again = search (Keeps-both, Keeps-direct) depth 12

    Keeps-send_both : (size : ℕ) → Keeps C (send_both (traced E) runner t size)
    unfolding send_both send_reliable act
    Keeps-send_both size = search (keeps_rules, Keeps-command, plain_send) depth 12

    Keeps-hold_round : (l : Unit {0}) → Keeps C (hold_round (traced E) runner t l)
    unfolding hold_round
    Keeps-hold_round l = search (quiet_rules, Keeps-mutual_relay, Keeps-edges_direct) depth 12

    Keeps-set_blocked :
        (api : Api) (peer : String) (is_blocked : Bool)
        → Plain (block_request api peer is_blocked)
        → Keeps C (set_blocked (traced E) api peer is_blocked)
    unfolding act
    Keeps-set_blocked api peer is_blocked h =
        Keeps-bind _ _ (Keeps-command E L api _ _ none h) (λ _. Keeps-pure tt)

    -- The cutting of the edge, and all that is done while it is cut.
    pub Keeps-partitioned :
        Plain (block_request t.a t.c_id true)
        → Plain (block_request t.c t.a_id true)
        → (blocked_at : ℕ) → Keeps C (partitioned (traced E) runner t blocked_at)
    unfolding partitioned
    Keeps-partitioned h k blocked_at = Keeps-bind _ _ (Keeps-set_blocked t.a t.c_id true h) (λ _.
        Keeps-bind _ _ (Keeps-set_blocked t.c t.a_id true k) (λ _.
          search
            (
              quiet_rules, Keeps-mutual_relay, Keeps-messages_received, Keeps-send_both,
              Keeps-hold_round, Keeps-loop_for,
            )
            depth 24 fits 4000))

    pub Keeps-recovery : Keeps C (recovery (traced E) runner t)
    unfolding recovery recover_late record_recovery deliver_by_relay
    Keeps-recovery =
        search
          (
            quiet_rules, Keeps-mutual_relay, Keeps-direct_again, Keeps-messages_received,
            Keeps-send_both,
          )
          depth 24
