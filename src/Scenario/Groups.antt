-- ===== src/Scenario/Groups.antt =====
-- Groups and checkpoints: `create_group`, `wait_group`, and the scenarios IT-028 and IT-032 to
-- IT-036.
pub mod Total
use Prim.Native.Nat.{max}
use local_peer_connections.Prelude.{
  ℕ, zero, suc, ◌+◌, String, Bool, true, false, ◌&&◌, Option, none, some, List, [], ◌∷◌, length,
  map, if◌then◌else◌,
}
use local_peer_connections.Prelude.Int.{pos}
use local_peer_connections.Python.Value.{
  Value, Values, Fields, boolean, int, list, dict, nil, end, field, get, get_or, of_list, is_str,
  truthy, same_value, find_field, as_dict,
}
use local_peer_connections.Exec.{
  text, shown, builtin, type_error, key_error, stop_iteration, index_error, Result, ok, err, Exec,
  and_then, ok_or, pure, lift, ◌>>=◌, ◌>>◌, for_each, map_each,
}
use local_peer_connections.World.{Env, State}
use local_peer_connections.Loop.{wait}
use local_peer_connections.Api.{Api, snapshot}
use local_peer_connections.Runner.{Runner, Test, reset_all}
use local_peer_connections.Connect.{connect}
use local_peer_connections.Scenario.{nth, has_length, act}

-- `list(range(n))`, from `i` on.
abbrev numbers : ℕ → ℕ → Values
numbers zero i = nil
numbers (suc n) i = Values.cons (int (pos i)) (numbers n (i + 1))

abbrev pub group_arguments : ℕ → Bool → Fields
group_arguments max_peers checkpointing =
    field "namespace" (list (of_list (map (λ n. int (pos n)) (76 ∷ 80 ∷ 67 ∷ 45 ∷ 73 ∷ 84 ∷ [])))) (
      field "token" (list (numbers 16 0)) (
        field "maxPeers" (int (pos max_peers)) (field "checkpointing" (boolean checkpointing) end)))

-- The groups, if each is a dict.
unfoldable pub all_dicts : List Value → Option (List Fields)
all_dicts [] = some []
all_dicts (v ∷ rest) = elim (as_dict v) [
  | none ↦ none
  | some d ↦ elim (all_dicts rest) [ none ↦ none | some ds ↦ some (d ∷ ds) ]
]

-- The test on one group; the conditions stop at the first that fails.
unfoldable pub has_converged : ℕ → Value → Fields → Result Bool
has_converged members first group =
    if is_str "ready" (get "state" group)
    then and_then (has_length members (get_or "members" (list nil) group)) (λ full.
      ok (
        full && (truthy (get "coordinatorPeerId" group) && same_value (get "groupId" group) first)))
    else ok false

unfoldable pub all_converged : ℕ → Value → List Fields → Result Bool
all_converged members first [] = ok true
all_converged members first (g ∷ rest) =
    and_then (has_converged members first g)
      (λ held. if held then all_converged members first rest else ok false)

abbrev group_ids : List Fields → List Value
group_ids = map (get "groupId")

-- `converged`, on the groups of the snapshots; it assigns `group_ids`.
unfoldable pub convergence : ℕ → List Value → List Value → Result (Bool × List Value)
convergence members groups found = elim (all_dicts groups) [
  | none ↦ ok (false, found)
  | some [] ↦ ok (true, [])
  | some (g ∷ rest) ↦
      and_then (all_converged members (get "groupId" g) (g ∷ rest))
        (λ held. ok (held, group_ids (g ∷ rest)))
]

-- `group_ids[0]`
unfoldable pub first_id : List Value → Result Value
first_id [] = err (builtin index_error)
first_id (v ∷ rest) = ok v

-- `value[key]`
unfoldable pub subscript : String → Value → Result Value
subscript key (dict d) = ok_or (find_field key d) (builtin key_error)
subscript key _ = err (builtin type_error)

-- `next(api for api, snapshot in zip(…) if snapshot["group"]["localIsCoordinator"])`
unfoldable pub find_coordinator : List Api → List Fields → Result Api
find_coordinator (api ∷ apis) (d ∷ rest) = and_then (subscript "group" (dict d)) (λ group.
    and_then (subscript "localIsCoordinator" group)
      (λ v. if truthy v then ok api else find_coordinator apis rest))
find_coordinator _ _ = err (builtin stop_iteration)

-- The test of IT-036 on a completed checkpoint.
unfoldable pub is_durable_for : ℕ → Test
is_durable_for required event =
    if is_str "durable" (get "status" event)
    then has_length required (get_or "requiredPeerIds" (list nil) event)
    else ok false

abbrev pub is_durable : Test
is_durable event = ok (is_str "durable" (get "status" event))

module _ (E : Env) (runner : Runner) where
  unfoldable pub create_group : Bool → Exec (State E) (Unit {0})
  create_group checkpointing =
      for_each (λ api. act E api "createGroup" (group_arguments (length runner.apis) checkpointing))
        runner.apis

  abbrev pub group_of : Api → Exec (State E) Value
  group_of api = do d ← snapshot E api; pure (get "group" d)

  unfoldable pub poll_groups : ℕ → List Value → Exec (State E) (Bool × List Value)
  poll_groups members found = do
    groups ← map_each group_of runner.apis
    lift (convergence members groups found)

  unfoldable pub wait_group : ℕ → Exec (State E) Value
  wait_group members = do
    ids ←
        wait E (poll_groups members)
          (text "group convergence with " ∷ shown (int (pos members)) ∷ text " members" ∷ [])
          (max runner.timeout 30000) []
    lift (first_id ids)

  -- The steps with which the group scenarios begin.
  unfoldable pub form_group : Bool → Exec (State E) (Api × Api)
  form_group checkpointing = do
    reset_all E runner
    source ← lift (nth runner.apis 0)
    target ← lift (nth runner.apis 1)
    connect E runner source target
    create_group checkpointing
    wait_group 2
    pure (source, target)
