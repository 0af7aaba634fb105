-- ===== src/Scenario/Dispatch.antt =====
-- `Runner.run`: which scenario a name selects.
pub mod Total
use local_peer_connections.Prelude.{ℕ, String, ◌||◌, [], ◌∷◌, str_eq, if◌then◌else◌}
use local_peer_connections.Exec.{text, blocked, Exec, pure, raise, ◌>>◌}
use local_peer_connections.World.{Env, State}
use local_peer_connections.Runner.{Runner}
use local_peer_connections.Scenario.Direct.{
  scenario_discovery, scenario_connect, scenario_identity, scenario_sas, scenario_messages,
  scenario_large_message,
}
use local_peer_connections.Scenario.Traffic.{
  scenario_soak, scenario_star, scenario_bidirectional_mixed,
}
use local_peer_connections.Scenario.Routed.{
  scenario_group, scenario_group_leave, scenario_group_ownership, scenario_checkpoint,
  scenario_three_peer_checkpoint,
}
use local_peer_connections.Api.{Api}
use local_peer_connections.Scenario.Load.Ramp.{scenario_bidirectional_size_ramp}
use local_peer_connections.Scenario.Load.{
  scenario_bidirectional_fixed_rate, scenario_bidirectional_group, scenario_symmetric_connect,
}
use local_peer_connections.Scenario.Measured.{scenario_checkpoint_bandwidth_latency}
use local_peer_connections.Scenario.Relay.{scenario_friend_relay}

-- The methods that `run` calls.
pub data Scenario : Type 0 where
  discovery : Scenario
  connect : ℕ → Scenario
  identity sas messages large_message : Scenario
  bidirectional_mixed bidirectional_fixed_rate bidirectional_group bidirectional_size_ramp :
      Scenario
  checkpoint_bandwidth_latency soak : Scenario
  star : ℕ → Scenario
  symmetric_connect checkpoint three_peer_checkpoint friend_relay : Scenario
  group group_leave group_ownership unknown : Scenario

-- The chain of tests of `run`.
unfoldable pub scenario_named : String → Scenario
scenario_named name =
    if str_eq name "IT-001" || str_eq name "IT-002"
    then discovery
    else if str_eq name "IT-003"
    then connect 0
    else if str_eq name "IT-004"
    then connect 1
    else if str_eq name "IT-005"
    then identity
    else if str_eq name "IT-006"
    then sas
    else if str_eq name "IT-008"
    then messages
    else if str_eq name "IT-009"
    then large_message
    else if str_eq name "IT-040"
    then bidirectional_mixed
    else if str_eq name "IT-041"
    then bidirectional_fixed_rate
    else if str_eq name "IT-042"
    then bidirectional_group
    else if str_eq name "IT-043"
    then bidirectional_size_ramp
    else if str_eq name "IT-044"
    then checkpoint_bandwidth_latency
    else if str_eq name "IT-017"
    then soak
    else if str_eq name "IT-018"
    then star 4
    else if str_eq name "IT-019"
    then star 8
    else if str_eq name "IT-021"
    then symmetric_connect
    else if str_eq name "IT-028"
    then checkpoint
    else if str_eq name "IT-036"
    then three_peer_checkpoint
    else if str_eq name "IT-046"
    then friend_relay
    else if str_eq name "IT-032" || str_eq name "IT-033"
    then group
    else if str_eq name "IT-034"
    then group_leave
    else if str_eq name "IT-035"
    then group_ownership
    else unknown

module _ (E : Env) (dial_both : Runner → Api → Api → Exec (State E) (Unit {0})) where
  -- `dial_both` stands for two interleaved calls of `connect`.
  unfoldable pub run_scenario : Runner → String → Scenario → Exec (State E) (Unit {0})
  run_scenario runner name discovery = scenario_discovery E runner
  run_scenario runner name (connect i) = scenario_connect E runner i
  run_scenario runner name identity = scenario_identity E runner
  run_scenario runner name sas = scenario_sas E runner
  run_scenario runner name messages = do scenario_messages E runner; pure tt
  run_scenario runner name large_message = scenario_large_message E runner
  run_scenario runner name bidirectional_mixed = scenario_bidirectional_mixed E runner
  run_scenario runner name soak = do scenario_soak E runner; pure tt
  run_scenario runner name (star n) = scenario_star E runner n
  run_scenario runner name checkpoint = scenario_checkpoint E runner
  run_scenario runner name three_peer_checkpoint = scenario_three_peer_checkpoint E runner
  run_scenario runner name group = scenario_group E runner
  run_scenario runner name group_leave = scenario_group_leave E runner
  run_scenario runner name group_ownership = scenario_group_ownership E runner
  run_scenario runner name unknown = raise (
      blocked (
        text name
        ∷ text ": requires a real-device fault/capability hook not exposed by the fixture yet"
        ∷ []))
  run_scenario runner name bidirectional_fixed_rate = scenario_bidirectional_fixed_rate E runner
  run_scenario runner name bidirectional_group = scenario_bidirectional_group E runner
  run_scenario runner name bidirectional_size_ramp = scenario_bidirectional_size_ramp E runner
  run_scenario runner name checkpoint_bandwidth_latency =
      scenario_checkpoint_bandwidth_latency E runner
  run_scenario runner name symmetric_connect = scenario_symmetric_connect E dial_both runner
  run_scenario runner name friend_relay = scenario_friend_relay E runner

  unfoldable pub run : Runner → String → Exec (State E) (Unit {0})
  run runner name = run_scenario runner name (scenario_named name)
