-- ===== src/Scenario/Routed/Total.antt =====
-- The group scenarios and the checkpoints end, whatever the devices answer.
use local_peer_connections.Prelude.{ℕ, List, [], ◌∷◌}
use local_peer_connections.Exec.Contract.{Keeps, Keeps-bind, Keeps-pure}
use local_peer_connections.World.{Env, IsEnv}
use local_peer_connections.Loop.Forward.{total}
use local_peer_connections.Api.{Api}
use local_peer_connections.Runner.{Runner}
use local_peer_connections.Runner.Found.{IsTest, Keeps-wait_for_event}
use local_peer_connections.Connect.Total.{Keeps-connect}
use local_peer_connections.Scenario.Total.{step_rules, has_length_ends}
use local_peer_connections.Peers.{Counts}
use local_peer_connections.Peers.Total.{Keeps-backend_resource_counts}
use local_peer_connections.Scenario.{has_bytes}
use local_peer_connections.Scenario.Traffic.Total.{is_intact-IsTest}
use local_peer_connections.Scenario.Groups.{is_durable}
use local_peer_connections.Scenario.Groups.Total.{
  find_coordinator_ends, is_durable_for-IsTest, Keeps-create_group, Keeps-wait_group,
  Keeps-form_group,
}
use local_peer_connections.Scenario.Routed.{
  check_resources, check_all_resources, scenario_group, has_left, scenario_group_leave,
  scenario_group_ownership, coordinator, scenario_checkpoint, connect_rest, dial_all,
  scenario_three_peer_checkpoint,
}

has_bytes-IsTest : (size : ℕ) → IsTest (has_bytes size)
has_bytes-IsTest size event = tt

is_durable-IsTest : IsTest is_durable
is_durable-IsTest event = tt

module _ (E : Env) (laws : IsEnv E) (runner : Runner) where
  Keeps-check_resources :
      (api : Api) (before : Counts) → Keeps (total E laws) (check_resources E runner api before)
  unfolding check_resources
  Keeps-check_resources api before =
      search (step_rules, has_length_ends, Keeps-backend_resource_counts) depth 12

  Keeps-check_all_resources :
      (apis : List Api) (counts : List Counts)
      → Keeps (total E laws) (check_all_resources E runner apis counts)
  unfolding check_all_resources
  Keeps-check_all_resources [] counts = Keeps-pure tt
  Keeps-check_all_resources (api ∷ apis) [] = Keeps-pure tt
  Keeps-check_all_resources (api ∷ apis) (before ∷ rest) =
      Keeps-bind _ _ (Keeps-check_resources api before) (λ _. Keeps-check_all_resources apis rest)

  ruleset group_rules = (
    step_rules, has_length_ends, Keeps-backend_resource_counts, Keeps-check_all_resources,
    Keeps-create_group, Keeps-wait_group, Keeps-form_group, Keeps-wait_for_event, is_intact-IsTest,
    has_bytes-IsTest, is_durable-IsTest, is_durable_for-IsTest,
  )

  pub Keeps-scenario_group : Keeps (total E laws) (scenario_group E runner)
  unfolding scenario_group
  Keeps-scenario_group = search group_rules depth 24

  Keeps-has_left : (api : Api) → Keeps (total E laws) (has_left E runner api)
  unfolding has_left
  Keeps-has_left api = search step_rules depth 12

  pub Keeps-scenario_group_leave : Keeps (total E laws) (scenario_group_leave E runner)
  unfolding scenario_group_leave
  Keeps-scenario_group_leave = search (group_rules, Keeps-has_left) depth 20

  pub Keeps-scenario_group_ownership : Keeps (total E laws) (scenario_group_ownership E runner)
  unfolding scenario_group_ownership
  Keeps-scenario_group_ownership = search group_rules depth 20

  Keeps-coordinator : Keeps (total E laws) (coordinator E runner)
  unfolding coordinator
  Keeps-coordinator = search (step_rules, find_coordinator_ends) depth 12

  pub Keeps-scenario_checkpoint : Keeps (total E laws) (scenario_checkpoint E runner)
  unfolding scenario_checkpoint
  Keeps-scenario_checkpoint = search (group_rules, Keeps-coordinator) depth 20

  Keeps-connect_rest :
      (center : Api) (apis : List Api) → Keeps (total E laws) (connect_rest E runner center apis)
  unfolding connect_rest
  Keeps-connect_rest center [] = Keeps-pure tt
  Keeps-connect_rest center (api ∷ rest) =
      Keeps-bind _ _ (Keeps-connect E laws runner center api) (λ _. Keeps-connect_rest center rest)

  Keeps-dial_all : (apis : List Api) → Keeps (total E laws) (dial_all E runner apis)
  unfolding dial_all
  Keeps-dial_all [] = Keeps-pure tt
  Keeps-dial_all (center ∷ rest) = Keeps-connect_rest center rest

  pub Keeps-scenario_three_peer_checkpoint :
      Keeps (total E laws) (scenario_three_peer_checkpoint E runner)
  unfolding scenario_three_peer_checkpoint
  Keeps-scenario_three_peer_checkpoint =
      search (group_rules, Keeps-coordinator, Keeps-dial_all) depth 24
