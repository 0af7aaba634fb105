-- ===== src/Scenario/Relay/Total.antt =====
-- IT-046 ends, whatever the devices answer.
use local_peer_connections.Prelude.{ℕ, String, Bool, arith}
use local_peer_connections.Prelude.Int.{≤ℤ_refl}
use local_peer_connections.Python.Value.{Value, Fields, dict}
use local_peer_connections.Python.Number.{int_of}
use local_peer_connections.Exec.{Exec, and_then}
use local_peer_connections.Exec.Contract.{Keeps, Keeps-lift, Keeps-bind, keeps_rules}
use local_peer_connections.World.{Env, IsEnv, State}
use local_peer_connections.Loop.{loop_for}
use local_peer_connections.Loop.Forward.{total, ResultEnds, and_then-ResultEnds, Forward-trans}
use local_peer_connections.Loop.Total.{Paced, Paced-more, Paced-bind, Keeps-loop_for}
use local_peer_connections.Api.{Api}
use local_peer_connections.Runner.{Runner}
use local_peer_connections.Scenario.Total.{step_rules}
use local_peer_connections.Scenario.Numbers.{int_of_ends}
use local_peer_connections.Scenario.Groups.{subscript}
use local_peer_connections.Scenario.Groups.Total.{subscript_ends}
use local_peer_connections.Scenario.Relay.{
  Trio, finally, set_metric, connection, direct, relay, messages_received, edges_direct,
  mutual_relay, direct_again, send_both, hold_round, partitioned, unblock, heal, record_recovery,
  deliver_by_relay, recover_late, recovery, cut_and_restore, scenario_friend_relay,
}

received_ends :
    (d : Fields)
    → ResultEnds (
        and_then
          (subscript "telemetry" (dict d))
          (λ telemetry. and_then (subscript "messagesReceived" telemetry) int_of))
received_ends d =
    and_then-ResultEnds _ _ (subscript_ends _ _)
      (λ telemetry. and_then-ResultEnds _ _ (subscript_ends _ telemetry) int_of_ends)

module _ (E : Env) (laws : IsEnv E) where
  Keeps-finally :
      {A : Type 0} (m : Exec (State E) A) (handler : Exec (State E) (Unit {0}))
      → Keeps (total E laws) m
      → Keeps (total E laws) handler
      → Keeps (total E laws) (finally E m handler)
  unfolding finally
  Keeps-finally m handler k h = record {
    related = λ s.
        let rest = Keeps-bind handler _ h (λ _. Keeps-lift (m s).0 (k.allowed s)) in
        Forward-trans E laws s (m s).1 _ (k.related s) (rest.related (m s).1);
    allowed = λ s.
        let rest = Keeps-bind handler _ h (λ _. Keeps-lift (m s).0 (k.allowed s)) in
        rest.allowed (m s).1;
  }

  Keeps-set_metric : (key : String) (v : Value) → Keeps (total E laws) (set_metric E key v)
  unfolding set_metric
  Keeps-set_metric key v = record {
    related = λ s. record { clock = omega arith; cursors = λ i. ≤ℤ_refl (s.cursor i) };
    allowed = λ s. tt;
  }

  Keeps-connection : (api : Api) (peer : String) → Keeps (total E laws) (connection E api peer)
  unfolding connection
  Keeps-connection api peer = search step_rules depth 12

  Keeps-direct : (api : Api) (peer : String) → Keeps (total E laws) (direct E api peer)
  unfolding direct
  Keeps-direct api peer = search (keeps_rules, Keeps-connection) depth 8

  Keeps-relay :
      (via : String) (api : Api) (peer : String) → Keeps (total E laws) (relay E via api peer)
  unfolding relay
  Keeps-relay via api peer = search (keeps_rules, Keeps-connection) depth 8

  Keeps-messages_received : (api : Api) → Keeps (total E laws) (messages_received E api)
  unfolding messages_received
  Keeps-messages_received api = search (step_rules, received_ends) depth 12

  ruleset relay_rules =
      (step_rules, Keeps-set_metric, Keeps-direct, Keeps-relay, Keeps-messages_received)

  module _ (runner : Runner) (t : Trio) where
    Keeps-edges_direct : Keeps (total E laws) (edges_direct E runner t)
    unfolding edges_direct
    Keeps-edges_direct = search relay_rules depth 12

    Keeps-mutual_relay : Keeps (total E laws) (mutual_relay E runner t)
    unfolding mutual_relay
    Keeps-mutual_relay = search relay_rules depth 12

    Keeps-direct_again : Keeps (total E laws) (direct_again E runner t)
    unfolding direct_again
    Keeps-direct_again = search relay_rules depth 12

    Keeps-send_both : (size : ℕ) → Keeps (total E laws) (send_both E runner t size)
    unfolding send_both
    Keeps-send_both size = search step_rules depth 12

    Paced-hold_round : (l : Unit {0}) → Paced E laws (hold_round E runner t l)
    unfolding hold_round
    Paced-hold_round l =
        Paced-bind E laws _ _
          (search (relay_rules, Keeps-mutual_relay, Keeps-edges_direct) depth 12)
          (λ held.
            Paced-bind E laws _ _ (search keeps_rules depth 8)
              (λ _. Paced-more E laws 1000 tt (omega arith)))

    Keeps-hold :
        (l : Unit {0}) → Keeps (total E laws) (loop_for E 30000 (λ _. hold_round E runner t) l)
    Keeps-hold l = Keeps-loop_for E laws 30000 _ l (λ _ l'. Paced-hold_round l')

    ruleset trio_rules = (
      relay_rules, Keeps-edges_direct, Keeps-mutual_relay, Keeps-direct_again, Keeps-send_both,
      Keeps-hold,
    )

    pub Keeps-partitioned :
        (blocked_at : ℕ) → Keeps (total E laws) (partitioned E runner t blocked_at)
    unfolding partitioned
    Keeps-partitioned blocked_at = search trio_rules depth 30

    Keeps-unblock : (api : Api) (peer : String) → Keeps (total E laws) (unblock E runner t api peer)
    unfolding unblock
    Keeps-unblock api peer = search step_rules depth 12

    Keeps-heal : Keeps (total E laws) (heal E runner t)
    unfolding heal
    Keeps-heal = Keeps-bind _ _ (Keeps-unblock t.a t.c_id) (λ _. Keeps-unblock t.c t.a_id)

    Keeps-record_recovery :
        (restored_at : ℕ) (b : Bool)
        → Keeps (total E laws) (record_recovery E runner t restored_at b)
    unfolding record_recovery
    Keeps-record_recovery restored_at b = search relay_rules depth 12

    Keeps-deliver_by_relay : Keeps (total E laws) (deliver_by_relay E runner t)
    unfolding deliver_by_relay
    Keeps-deliver_by_relay = search trio_rules depth 16

    Keeps-recover_late :
        (restored_at : ℕ) → Keeps (total E laws) (recover_late E runner t restored_at)
    unfolding recover_late
    Keeps-recover_late restored_at =
        search (trio_rules, Keeps-record_recovery, Keeps-deliver_by_relay) depth 12

    Keeps-recovery : Keeps (total E laws) (recovery E runner t)
    unfolding recovery
    Keeps-recovery = search (trio_rules, Keeps-record_recovery, Keeps-recover_late) depth 14

    Keeps-cut_and_restore : Keeps (total E laws) (cut_and_restore E runner t)
    unfolding cut_and_restore
    Keeps-cut_and_restore =
        search (trio_rules, Keeps-finally, Keeps-partitioned, Keeps-heal, Keeps-recovery) depth 14

  pub Keeps-scenario_friend_relay :
      (runner : Runner) → Keeps (total E laws) (scenario_friend_relay E runner)
  unfolding scenario_friend_relay
  Keeps-scenario_friend_relay runner = search (step_rules, Keeps-cut_and_restore) depth 14
