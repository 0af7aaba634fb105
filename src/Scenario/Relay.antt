-- ===== src/Scenario/Relay.antt =====
-- IT-046: the edge between the first and the third of three devices is cut, their messages go by
-- the second, and the edge is restored whatever happened.
pub mod Total
pub mod Steps
pub mod Edges
pub mod Healed
use local_peer_connections.Prelude.{
  ℕ, ◌+◌, ◌-◌, String, Bool, true, false, not, ◌&&◌, Option, none, some, List, [], ◌∷◌, ◌==◌,
  length, str_eq, if◌then◌else◌,
}
use local_peer_connections.Prelude.Int.{ℤ, pos, leb_ℤ, ltb_ℤ, ◌+ℤ◌}
use local_peer_connections.Python.Value.{
  Value, Fields, boolean, int, str, dict, end, field, get, put, as_str, is_str, is_true, is_false,
  same_int,
}
use local_peer_connections.Python.Number.{int_of}
use local_peer_connections.Exec.{
  text, Message, Error, failure, blocked, Result, ok, err, Exec, and_then, pure, raise, lift, catch,
  ◌>>=◌, ◌>>◌, raise_if, raise_unless, or_raise, for_each, map_each,
}
use local_peer_connections.World.{Env, State}
use local_peer_connections.Loop.{Loop, done, more, monotonic, sleep, loop_for}
use local_peer_connections.Api.{Api, snapshot}
use local_peer_connections.Runner.{Runner, walk, drain_events, wait_until}
use local_peer_connections.Peers.{connections}
use local_peer_connections.Scenario.{act, send_reliable, both}
use local_peer_connections.Scenario.Groups.{subscript}

-- `a, b, c = self.apis`, of three devices.
abbrev pub three : List Api → Option (Api × Api × Api)
three (a ∷ b ∷ c ∷ []) = some (a, b, c)
three _ = none

abbrev pub three_ids : List Value → Option (String × String × String)
three_ids (str a ∷ str b ∷ str c ∷ []) = some (a, b, c)
three_ids _ = none

-- `connection`: the first listed dict with the peer id.
unfoldable pub connection_to : String → List Value → Option Fields
connection_to peer [] = none
connection_to peer (dict c ∷ rest) =
    if is_str peer (get "peerId" c) then some c else connection_to peer rest
connection_to peer (_ ∷ rest) = connection_to peer rest

unfoldable pub is_direct : Option Fields → Bool
is_direct none = false
is_direct (some c) = is_str "ready" (get "state" c) && is_false (get "isRelayed" c)

unfoldable pub is_relay : String → Option Fields → Bool
is_relay via none = false
is_relay via (some c) =
    is_str "ready" (get "state" c)
    && (is_true (get "isRelayed" c) && is_str via (get "relayPeerId" c))

-- The three devices with their peer ids.
pub record Trio : Type 0 where
  pub a : Api
  pub b : Api
  pub c : Api
  pub a_id : String
  pub b_id : String
  pub c_id : String

abbrev pub block_arguments : String → Bool → Fields
block_arguments peer is_blocked =
    field "peerId" (str peer) (field "blocked" (boolean is_blocked) end)

module _ (E : Env) where
  -- `try: m finally: handler`; an exception of the handler takes the place of that of `m`.
  unfoldable pub finally :
      {A : Type 0} → Exec (State E) A → Exec (State E) (Unit {0}) → Exec (State E) A
  finally m handler s = let (r, t) = m s in (handler >> lift r) t

  -- `self.metrics[key] = v`
  unfoldable pub set_metric : String → Value → Exec (State E) (Unit {0})
  set_metric key v s = (ok tt, record s { metrics = put key v s.metrics })

  unfoldable pub connection : Api → String → Exec (State E) (Option Fields)
  connection api peer = do
    d ← snapshot E api
    listed ← lift (walk (connections d))
    pure (connection_to peer listed)

  unfoldable pub direct : Api → String → Exec (State E) Bool
  direct api peer = do found ← connection api peer; pure (is_direct found)

  unfoldable pub relay : String → Api → String → Exec (State E) Bool
  relay via api peer = do found ← connection api peer; pure (is_relay via found)

  -- `int(api.snapshot()["telemetry"]["messagesReceived"])`
  unfoldable pub messages_received : Api → Exec (State E) ℤ
  messages_received api = do
    d ← snapshot E api
    lift (
        and_then (subscript "telemetry" (dict d))
          (λ telemetry. and_then (subscript "messagesReceived" telemetry) int_of))

  abbrev pub set_blocked : Api → String → Bool → Exec (State E) (Unit {0})
  set_blocked api peer is_blocked =
      act E api "setDirectPeerBlockedForTesting" (block_arguments peer is_blocked)

  module _ (runner : Runner) (t : Trio) where
    unfoldable pub edges_direct : Exec (State E) Bool
    edges_direct =
        both E (direct t.a t.b_id)
          (both E (direct t.b t.a_id) (both E (direct t.b t.c_id) (direct t.c t.b_id)))

    unfoldable pub mutual_relay : Exec (State E) Bool
    mutual_relay = both E (relay t.b_id t.a t.c_id) (relay t.b_id t.c t.a_id)

    unfoldable pub direct_again : Exec (State E) Bool
    direct_again = both E (direct t.a t.c_id) (direct t.c t.a_id)

    -- One message of a size each way.
    unfoldable pub send_both : ℕ → Exec (State E) (Unit {0})
    send_both size = do send_reliable E t.a t.c_id size; send_reliable E t.c t.a_id size

    abbrev has_received : Api → (ℤ → Bool) → Exec (State E) Bool
    has_received api enough = do n ← messages_received api; pure (enough n)

    -- One round of the 30 seconds in which all links must hold.
    unfoldable pub hold_round : Unit {0} → Exec (State E) (Loop (Unit {0}))
    hold_round l = do
      held ← both E mutual_relay edges_direct
      raise_unless held (
          failure (text "IT-046: a healthy direct or relayed link oscillated during 30s hold" ∷ []))
      sleep E 1000
      pure (more tt)

    abbrev record_delivery : ℕ → ℕ → Exec (State E) (Unit {0})
    record_delivery relay_time delivery_time = do
      set_metric "relayReadySeconds" (E.arithmetic.seconds relay_time)
      set_metric "bidirectionalDeliverySeconds" (E.arithmetic.seconds delivery_time)
      set_metric "messagesEachDirection" (int (pos 5))
      set_metric "bytesEachDirection" (int (pos 4608))

    -- The `try` block, with the edge cut.
    unfoldable pub partitioned : ℕ → Exec (State E) (Unit {0})
    partitioned blocked_at = do
      set_blocked t.a t.c_id true
      set_blocked t.c t.a_id true
      wait_until E mutual_relay (text "IT-046 mutually READY A-C relay" ∷ []) 30000
      relay_at ← monotonic E
      baseline_a ← messages_received t.a
      baseline_c ← messages_received t.c
      baseline_b ← messages_received t.b
      sent_at ← monotonic E
      for_each send_both (128 ∷ 128 ∷ 128 ∷ 128 ∷ 4096 ∷ [])
      wait_until E
          (both E (has_received t.a (leb_ℤ (baseline_a +ℤ pos 5)))
            (has_received t.c (leb_ℤ (baseline_c +ℤ pos 5))))
          (text "IT-046 bidirectional relayed delivery" ∷ []) 60000
      delivered_at ← monotonic E
      received_b ← messages_received t.b
      raise_unless (same_int received_b baseline_b)
          (failure (text "IT-046: intermediary received endpoint application payload" ∷ []))
      record_delivery (relay_at - blocked_at) (delivered_at - sent_at)
      loop_for E 30000 (λ _. hold_round) tt
      pure tt

    -- `try: api.command(…, "blocked": False) except RunnerFailure: pass`
    unfoldable pub unblock : Api → String → Exec (State E) (Unit {0})
    unblock api peer = catch (set_blocked api peer false) (λ _. pure tt)

    -- The `finally` block.
    unfoldable pub heal : Exec (State E) (Unit {0})
    heal = do unblock t.a t.c_id; unblock t.c t.a_id

    unfoldable pub record_recovery : ℕ → Bool → Exec (State E) (Unit {0})
    record_recovery restored_at in_time = do
      now ← monotonic E
      set_metric "directRecoverySeconds" (E.arithmetic.seconds (now - restored_at))
      set_metric "directRecoveredWithin30Seconds" (boolean in_time)

    -- Without the direct edge, the relay still has to deliver.
    unfoldable pub deliver_by_relay : Exec (State E) (Unit {0})
    deliver_by_relay = do
      relayed ← mutual_relay
      raise_unless relayed (
          failure
            (text "IT-046: neither direct nor relayed A-C link stayed READY after unblock" ∷ []))
      baseline_a ← messages_received t.a
      baseline_c ← messages_received t.c
      send_both 128
      wait_until E
          (both E (has_received t.a (ltb_ℤ baseline_a)) (has_received t.c (ltb_ℤ baseline_c)))
          (text "IT-046 relay delivery despite unavailable restored direct edge" ∷ []) 30000
      set_metric "directRecoveredWithin30Seconds" (boolean false)

    unfoldable pub recover_late : ℕ → Exec (State E) (Unit {0})
    recover_late restored_at = do
      restored ← direct_again
      if restored then record_recovery restored_at false else deliver_by_relay

    unfoldable pub recovery : Exec (State E) (Unit {0})
    recovery = do
      restored_at ← monotonic E
      catch
          (do
            wait_until E direct_again
                (text "IT-046 direct A-C recovery after restoring the edge" ∷ []) 30000
            record_recovery restored_at true)
          (λ _. recover_late restored_at)

    -- The scenario on its three devices.
    unfoldable pub cut_and_restore : Exec (State E) (Unit {0})
    cut_and_restore = do
      wait_until E edges_direct (text "IT-046 stable A-B and B-C physical links" ∷ []) 30000
      drain_events E runner
      blocked_at ← monotonic E
      finally (partitioned blocked_at) heal
      recovery

  abbrev id_of : Api → Exec (State E) Value
  id_of api = do d ← snapshot E api; pure (get "localPeerId" d)

  unfoldable pub scenario_friend_relay : Runner → Exec (State E) (Unit {0})
  scenario_friend_relay runner = do
    (a, b, c) ←
        or_raise (three runner.apis)
          (blocked (text "IT-046 requires exactly three physical devices" ∷ []))
    ids ← map_each id_of runner.apis
    (a_id, b_id, c_id) ←
        or_raise (three_ids ids) (failure (text "IT-046: a device has no local PeerId" ∷ []))
    cut_and_restore runner (record { a = a; b = b; c = c; a_id = a_id; b_id = b_id; c_id = c_id })
