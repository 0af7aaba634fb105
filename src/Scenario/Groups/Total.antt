-- ===== src/Scenario/Groups/Total.antt =====
-- Creating a group and waiting for it end, whatever the devices answer.
use local_peer_connections.Prelude.{ℕ, String, Bool, true, false, Option, none, some, List, [], ◌∷◌}
use local_peer_connections.Python.Value.{Value, Fields, get, dict, is_str, truthy}
use local_peer_connections.Exec.{ok, and_then}
use local_peer_connections.Exec.Contract.{Keeps, Keeps-bind, Keeps-lift}
use local_peer_connections.World.{Env, IsEnv}
use local_peer_connections.Loop.Forward.{
  total, ResultEnds, and_then-ResultEnds, ok_or-ResultEnds, if-ResultEnds,
}
use local_peer_connections.Loop.Total.{Keeps-wait}
use local_peer_connections.Api.{Api}
use local_peer_connections.Runner.{Runner}
use local_peer_connections.Runner.Found.{IsTest}
use local_peer_connections.Scenario.Total.{step_rules, has_length_ends}
use local_peer_connections.Scenario.Groups.{
  group_ids, all_dicts, has_converged, all_converged, convergence, first_id, subscript,
  find_coordinator, is_durable_for, create_group, poll_groups, wait_group, form_group,
}

has_converged_ends : (n : ℕ) (first : Value) (g : Fields) → ResultEnds (has_converged n first g)
unfolding has_converged
has_converged_ends n first g = search (if-ResultEnds, and_then-ResultEnds, has_length_ends) depth 12

all_converged_ends :
    (n : ℕ) (first : Value) (gs : List Fields) → ResultEnds (all_converged n first gs)
unfolding all_converged
all_converged_ends n first [] = tt
all_converged_ends n first (g ∷ rest) =
    and_then-ResultEnds _ _ (has_converged_ends n first g)
      (λ held. if-ResultEnds held _ _ (all_converged_ends n first rest) tt)

convergence_ends : (n : ℕ) (groups found : List Value) → ResultEnds (convergence n groups found)
unfolding convergence
convergence_ends n groups found = by_groups (all_dicts groups)
  where
    by_groups :
        (o : Option (List Fields))
        → ResultEnds {A = Bool × List Value} (elim o [
          | none ↦ ok (false, found)
          | some [] ↦ ok (true, [])
          | some (g ∷ rest) ↦
              and_then
                (all_converged n (get "groupId" g) (g ∷ rest))
                (λ held. ok (held, group_ids (g ∷ rest)))
        ])
    by_groups none = tt
    by_groups (some []) = tt
    by_groups (some (g ∷ rest)) =
        and_then-ResultEnds _ _ (all_converged_ends n (get "groupId" g) (g ∷ rest)) (λ held. tt)

pub first_id_ends : (ids : List Value) → ResultEnds (first_id ids)
unfolding first_id
first_id_ends [] = tt
first_id_ends (v ∷ rest) = tt

pub subscript_ends : (key : String) (v : Value) → ResultEnds (subscript key v)
unfolding subscript
subscript_ends key (dict d) = ok_or-ResultEnds _ _ tt
subscript_ends key Value.null = tt
subscript_ends key _ = tt

pub find_coordinator_ends :
    (apis : List Api) (ds : List Fields) → ResultEnds (find_coordinator apis ds)
unfolding find_coordinator
find_coordinator_ends [] ds = tt
find_coordinator_ends (api ∷ apis) [] = tt
find_coordinator_ends (api ∷ apis) (d ∷ rest) =
    and_then-ResultEnds _ _ (subscript_ends "group" (dict d)) (λ group.
      and_then-ResultEnds _ _ (subscript_ends "localIsCoordinator" group)
        (λ v. if-ResultEnds (truthy v) _ _ tt (find_coordinator_ends apis rest)))

pub is_durable_for-IsTest : (n : ℕ) → IsTest (is_durable_for n)
unfolding is_durable_for
is_durable_for-IsTest n event =
    if-ResultEnds (is_str "durable" (get "status" event)) _ _ (has_length_ends n _) tt

module _ (E : Env) (laws : IsEnv E) (runner : Runner) where
  pub Keeps-create_group : (b : Bool) → Keeps (total E laws) (create_group E runner b)
  unfolding create_group
  Keeps-create_group b = search step_rules depth 12

  Keeps-poll_groups :
      (n : ℕ) (found : List Value) → Keeps (total E laws) (poll_groups E runner n found)
  unfolding poll_groups
  Keeps-poll_groups n found = search (step_rules, convergence_ends) depth 12

  pub Keeps-wait_group : (n : ℕ) → Keeps (total E laws) (wait_group E runner n)
  unfolding wait_group
  Keeps-wait_group n =
      Keeps-bind _ _ (Keeps-wait E laws _ _ _ _ (Keeps-poll_groups n))
        (λ ids. Keeps-lift _ (first_id_ends ids))

  pub Keeps-form_group : (b : Bool) → Keeps (total E laws) (form_group E runner b)
  unfolding form_group
  Keeps-form_group b = search (step_rules, Keeps-create_group, Keeps-wait_group) depth 16
