-- ===== src/Scenario/Routed.antt =====
-- The group scenarios IT-032 to IT-036, and the checkpoint IT-028.
pub mod Total
use Prim.Native.Nat.{max}
use local_peer_connections.Prelude.{
  ℕ, ◌-◌, String, Bool, true, false, not, List, [], ◌∷◌, ltb, length,
}
use local_peer_connections.Prelude.Int.{pos}
use local_peer_connections.Python.Value.{Value, Fields, dict, int, str, end, field, get, is_none}
use local_peer_connections.Exec.{
  text, shown, failure, blocked, Exec, pure, lift, ◌>>=◌, ◌>>◌, raise_if, raise_unless, map_each,
}
use local_peer_connections.World.{Env, State}
use local_peer_connections.Api.{Api, label, snapshot}
use local_peer_connections.Runner.{Runner, reset_all, wait_until, wait_for_event}
use local_peer_connections.Connect.{connect}
use local_peer_connections.Peers.{
  Counts, same_counts, backend_resource_counts, peer_id, connections,
}
use local_peer_connections.Scenario.{
  nth, is_intact, has_bytes, has_length, act, send_reliable, is_unconnected, both,
}
use local_peer_connections.Scenario.Groups.{
  create_group, wait_group, form_group, find_coordinator, is_durable, is_durable_for,
}

abbrev sized : String → ℕ → Fields
sized peer size = field "peerId" (str peer) (field "size" (int (pos size)) end)

abbrev size_only : ℕ → Fields
size_only size = field "size" (int (pos size)) end

-- The counts as the dict that the message shows.
abbrev counts_value : Counts → Value
counts_value c = dict (
    field "listenGatt" (int (pos c.listen_gatt)) (
      field "startAdvertising" (int (pos c.start_advertising))
        (field "startDiscovery" (int (pos c.start_discovery)) end)))

module _ (E : Env) (runner : Runner) where
  -- The resources that the group has opened on one device, against those counted before it.
  unfoldable pub check_resources : Api → Counts → Exec (State E) (Unit {0})
  check_resources api before = do
    after ← backend_resource_counts E api
    raise_if (not (same_counts after before)) (
        failure (
          text "IT-032/033: group created duplicate physical resources on "
          ∷ text (label api)
          ∷ text ": "
          ∷ shown (counts_value before)
          ∷ text " -> "
          ∷ shown (counts_value after)
          ∷ []))
    d ← snapshot E api
    single ← lift (has_length 1 (connections d))
    raise_unless single (
        failure (
          text "IT-033: group ownership created a redundant logical connection on "
          ∷ text (label api)
          ∷ []))

  unfoldable pub check_all_resources : List Api → List Counts → Exec (State E) (Unit {0})
  check_all_resources (api ∷ apis) (before ∷ rest) = do
    check_resources api before
    check_all_resources apis rest
  check_all_resources _ _ = pure tt

  unfoldable pub scenario_group : Exec (State E) (Unit {0})
  scenario_group = do
    reset_all E runner
    source ← lift (nth runner.apis 0)
    target ← lift (nth runner.apis 1)
    connect E runner source target
    counts ← map_each (backend_resource_counts E) runner.apis
    create_group E runner false
    wait_group E runner 2
    check_all_resources runner.apis counts
    peer ← peer_id E source target
    send_reliable E source peer 32
    wait_for_event E target "directMessageReceived" (is_intact 32) runner.timeout
    act E source "sendGroup" (sized peer 64)
    wait_for_event E target "groupMessageReceived" (is_intact 64) runner.timeout
    pure tt

  has_left : Api → Exec (State E) Bool
  has_left api = do d ← snapshot E api; pure (is_none (get "group" d))

  unfoldable pub scenario_group_leave : Exec (State E) (Unit {0})
  unfolding has_left
  scenario_group_leave = do
    (source, target) ← form_group E runner false
    peer ← peer_id E source target
    act E source "leaveGroup" end
    wait_until E (has_left source) (text "source group leave" ∷ []) runner.timeout
    send_reliable E source peer 24
    wait_for_event E target "directMessageReceived" (has_bytes 24) runner.timeout
    pure tt

  unfoldable pub scenario_group_ownership : Exec (State E) (Unit {0})
  scenario_group_ownership = do
    (source, target) ← form_group E runner false
    peer ← peer_id E source target
    act E source "releasePeerRetention" (field "peerId" (str peer) end)
    act E source "sendGroup" (sized peer 48)
    wait_for_event E target "groupMessageReceived" (has_bytes 48) runner.timeout
    act E source "leaveGroup" end
    act E target "leaveGroup" end
    wait_until E (both E (is_unconnected E source) (is_unconnected E target))
        (text "connection close after final group owner release" ∷ []) runner.timeout

  unfoldable pub coordinator : Exec (State E) Api
  coordinator = do
    snapshots ← map_each (snapshot E) runner.apis
    lift (find_coordinator runner.apis snapshots)

  unfoldable pub scenario_checkpoint : Exec (State E) (Unit {0})
  scenario_checkpoint = do
    form_group E runner true
    leader ← coordinator
    act E leader "publishCheckpoint" (size_only 262144)
    wait_for_event E leader "checkpointAccepted" (has_bytes 262144) runner.timeout
    wait_for_event E leader "checkpointCompleted" is_durable (max runner.timeout 120000)
    pure tt

  connect_rest : Api → List Api → Exec (State E) (Unit {0})
  connect_rest center [] = pure tt
  connect_rest center (api ∷ rest) = do connect E runner center api; connect_rest center rest

  dial_all : List Api → Exec (State E) (Unit {0})
  dial_all [] = pure tt
  dial_all (center ∷ rest) = connect_rest center rest

  unfoldable pub scenario_three_peer_checkpoint : Exec (State E) (Unit {0})
  unfolding connect_rest dial_all
  scenario_three_peer_checkpoint = do
    raise_if (ltb (length runner.apis) 3)
        (blocked (text "IT-036: requires at least three connected test devices" ∷ []))
    reset_all E runner
    dial_all runner.apis
    create_group E runner true
    wait_group E runner (length runner.apis)
    leader ← coordinator
    act E leader "publishCheckpoint" (size_only 262144)
    wait_for_event E leader "checkpointAccepted" (has_bytes 262144) runner.timeout
    wait_for_event E leader "checkpointCompleted" (is_durable_for (length runner.apis - 1))
        (max runner.timeout 180000)
    pure tt
