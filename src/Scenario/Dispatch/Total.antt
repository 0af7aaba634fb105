-- ===== src/Scenario/Dispatch/Total.antt =====
-- Every scenario that a name selects ends, whatever the devices answer.
use local_peer_connections.Prelude.{String}
use local_peer_connections.Exec.{Exec}
use local_peer_connections.Exec.Contract.{Keeps, Keeps-bind, Keeps-pure, Keeps-raise}
use local_peer_connections.World.{Env, IsEnv, State}
use local_peer_connections.Loop.Forward.{total}
use local_peer_connections.Runner.{Runner}
use local_peer_connections.Scenario.Direct.Total.{
  Keeps-scenario_discovery, Keeps-scenario_connect, Keeps-scenario_identity, Keeps-scenario_sas,
  Keeps-scenario_messages, Keeps-scenario_large_message,
}
use local_peer_connections.Scenario.Traffic.Total.{
  Keeps-scenario_soak, Keeps-scenario_star, Keeps-scenario_bidirectional_mixed,
}
use local_peer_connections.Scenario.Routed.Total.{
  Keeps-scenario_group, Keeps-scenario_group_leave, Keeps-scenario_group_ownership,
  Keeps-scenario_checkpoint, Keeps-scenario_three_peer_checkpoint,
}
use local_peer_connections.Api.{Api}
use local_peer_connections.Scenario.Load.Ramp.Total.{Keeps-scenario_bidirectional_size_ramp}
use local_peer_connections.Scenario.Load.Total.{
  Keeps-scenario_bidirectional_fixed_rate, Keeps-scenario_bidirectional_group,
  Keeps-scenario_symmetric_connect,
}
use local_peer_connections.Scenario.Measured.Total.{Keeps-scenario_checkpoint_bandwidth_latency}
use local_peer_connections.Scenario.Relay.Total.{Keeps-scenario_friend_relay}
use local_peer_connections.Scenario.Dispatch.{
  Scenario, discovery, connect, identity, sas, messages, large_message, bidirectional_mixed,
  bidirectional_fixed_rate, bidirectional_group, bidirectional_size_ramp,
  checkpoint_bandwidth_latency, soak, star, symmetric_connect, checkpoint, three_peer_checkpoint,
  friend_relay, group, group_leave, group_ownership, unknown, scenario_named, run_scenario, run,
}

module _ (E : Env) (laws : IsEnv E)
    (dial_both : Runner → Api → Api → Exec (State E) (Unit {0})) where
  Keeps-run_scenario :
      ((runner : Runner) (first second : Api)
        → Keeps (total E laws) (dial_both runner first second))
      → (runner : Runner) (name : String) (which : Scenario)
      → Keeps (total E laws) (run_scenario E dial_both runner name which)
  unfolding run_scenario
  Keeps-run_scenario k runner name discovery = Keeps-scenario_discovery E laws runner
  Keeps-run_scenario k runner name (connect i) = Keeps-scenario_connect E laws runner i
  Keeps-run_scenario k runner name identity = Keeps-scenario_identity E laws runner
  Keeps-run_scenario k runner name sas = Keeps-scenario_sas E laws runner
  Keeps-run_scenario k runner name messages =
      Keeps-bind _ _ (Keeps-scenario_messages E laws runner) (λ _. Keeps-pure tt)
  Keeps-run_scenario k runner name large_message = Keeps-scenario_large_message E laws runner
  Keeps-run_scenario k runner name bidirectional_mixed =
      Keeps-scenario_bidirectional_mixed E laws runner
  Keeps-run_scenario k runner name soak =
      Keeps-bind _ _ (Keeps-scenario_soak E laws runner) (λ _. Keeps-pure tt)
  Keeps-run_scenario k runner name (star n) = Keeps-scenario_star E laws runner n
  Keeps-run_scenario k runner name checkpoint = Keeps-scenario_checkpoint E laws runner
  Keeps-run_scenario k runner name three_peer_checkpoint =
      Keeps-scenario_three_peer_checkpoint E laws runner
  Keeps-run_scenario k runner name group = Keeps-scenario_group E laws runner
  Keeps-run_scenario k runner name group_leave = Keeps-scenario_group_leave E laws runner
  Keeps-run_scenario k runner name group_ownership = Keeps-scenario_group_ownership E laws runner
  Keeps-run_scenario k runner name unknown = Keeps-raise _ tt
  Keeps-run_scenario k runner name bidirectional_fixed_rate =
      Keeps-scenario_bidirectional_fixed_rate E laws runner
  Keeps-run_scenario k runner name bidirectional_group =
      Keeps-scenario_bidirectional_group E laws runner
  Keeps-run_scenario k runner name bidirectional_size_ramp =
      Keeps-scenario_bidirectional_size_ramp E laws runner
  Keeps-run_scenario k runner name checkpoint_bandwidth_latency =
      Keeps-scenario_checkpoint_bandwidth_latency E laws runner
  Keeps-run_scenario k runner name symmetric_connect =
      Keeps-scenario_symmetric_connect E laws dial_both runner (k runner)
  Keeps-run_scenario k runner name friend_relay = Keeps-scenario_friend_relay E laws runner

  -- In a lawful environment, if two interleaved calls of `connect` end and move forward, then so
  -- does the run of every scenario name, whatever the devices answer: it returns or raises, no loop
  -- of the model runs out of rounds, and neither the clock nor any cursor goes back.
  pub Keeps-run :
      ((runner : Runner) (first second : Api)
        → Keeps (total E laws) (dial_both runner first second))
      → (runner : Runner) (name : String) → Keeps (total E laws) (run E dial_both runner name)
  unfolding run
  Keeps-run k runner name = Keeps-run_scenario k runner name (scenario_named name)
