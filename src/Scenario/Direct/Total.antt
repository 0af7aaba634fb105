-- ===== src/Scenario/Direct/Total.antt =====
-- The scenarios on one direct connection end, whatever the devices answer.
use local_peer_connections.Prelude.{ℕ, zero, suc, ◌+◌, String, Bool, leb, arith}
use local_peer_connections.Python.Value.{Fields}
use local_peer_connections.Exec.{Exec}
use local_peer_connections.Exec.Contract.{Keeps, Keeps-bind, Keeps-pure, Keeps-fold}
use local_peer_connections.World.{Env, IsEnv, State}
use local_peer_connections.Loop.{loop_for}
use local_peer_connections.Loop.Forward.{total}
use local_peer_connections.Loop.Total.{Paced, Paced-bind, Paced-turn, Keeps-loop_for}
use local_peer_connections.Api.{Api}
use local_peer_connections.Api.Total.{Keeps-events}
use local_peer_connections.Runner.{Runner}
use local_peer_connections.Scenario.Total.{step_rules, Keeps-send_reliable}
use local_peer_connections.Peers.Total.{Keeps-assert_discovery}
use local_peer_connections.Scenario.{count_payloads}
use local_peer_connections.Scenario.Direct.{
  pair, scenario_discovery, scenario_connect, scenario_identity, scenario_sas, receive_until,
  repeat, send_batch, send_batches, scenario_messages, take_large, watch_large,
  scenario_large_message,
}

module _ (E : Env) (laws : IsEnv E) where
  module _ (runner : Runner) where
    pub Keeps-scenario_discovery : Keeps (total E laws) (scenario_discovery E runner)
    unfolding scenario_discovery
    Keeps-scenario_discovery = Keeps-assert_discovery E laws runner

    pub Keeps-scenario_connect : (i : ℕ) → Keeps (total E laws) (scenario_connect E runner i)
    unfolding scenario_connect
    Keeps-scenario_connect i = search step_rules depth 14

    pub Keeps-scenario_identity : Keeps (total E laws) (scenario_identity E runner)
    unfolding scenario_identity pair
    Keeps-scenario_identity = search step_rules depth 20

    pub Keeps-scenario_sas : Keeps (total E laws) (scenario_sas E runner)
    unfolding scenario_sas pair
    Keeps-scenario_sas = search step_rules depth 14

    Paced-receive_until :
        (target : Api) (goal received : ℕ)
        → Paced E laws (receive_until E runner target goal received)
    unfolding receive_until
    Paced-receive_until target goal received =
        Paced-bind E laws _ _ (Keeps-events E laws target) (λ polled.
          let n = received + count_payloads 32 polled in
          Paced-turn E laws 100 (leb goal n) n (omega arith))

    Keeps-repeat :
        (n : ℕ) (m : Exec (State E) (Unit {0}))
        → Keeps (total E laws) m
        → Keeps (total E laws) (repeat E runner n m)
    unfolding repeat
    Keeps-repeat zero m h = Keeps-pure tt
    Keeps-repeat (suc n) m h = Keeps-bind _ _ h (λ _. Keeps-repeat n m h)

    Keeps-receive :
        (target : Api) (goal received : ℕ)
        → Keeps
            (total E laws)
            (loop_for E runner.timeout (λ _. receive_until E runner target goal) received)
    Keeps-receive target goal received =
        Keeps-loop_for E laws runner.timeout _ received (λ _ n. Paced-receive_until target goal n)

    Keeps-send_batch :
        (source target : Api) (peer : String) (batch received : ℕ)
        → Keeps (total E laws) (send_batch E runner source target peer batch received)
    unfolding send_batch
    Keeps-send_batch source target peer batch received =
        Keeps-bind _ _ (Keeps-repeat 50 _ (Keeps-send_reliable E laws source peer 32)) (λ _.
          Keeps-bind _ _ (Keeps-receive target _ received) (λ ended. search step_rules depth 12))

    Keeps-send_batches :
        (source target : Api) (peer : String) (left batch received : ℕ)
        → Keeps (total E laws) (send_batches E runner source target peer left batch received)
    unfolding send_batches
    Keeps-send_batches source target peer zero batch received = Keeps-pure received
    Keeps-send_batches source target peer (suc left) batch received =
        Keeps-bind _ _ (Keeps-send_batch source target peer batch received)
          (λ total. Keeps-send_batches source target peer left (batch + 1) total)

    pub Keeps-scenario_messages : Keeps (total E laws) (scenario_messages E runner)
    unfolding scenario_messages pair
    Keeps-scenario_messages = search (step_rules, Keeps-send_batches) depth 14

    Keeps-take_large :
        (event : Fields) (received : Bool)
        → Keeps (total E laws) (take_large E runner event received)
    unfolding take_large
    Keeps-take_large event received = search step_rules depth 12

    Paced-watch_large :
        (source target : Api) (received : Bool)
        → Paced E laws (watch_large E runner source target received)
    unfolding watch_large
    Paced-watch_large source target received =
        Paced-bind E laws _ _ (Keeps-events E laws target) (λ polled.
          Paced-bind E laws _ _ (Keeps-fold _ _ _ Keeps-take_large) (λ arrived.
            Paced-bind E laws _ _ (search step_rules depth 12)
              (λ _. Paced-turn E laws 100 arrived arrived (omega arith))))

    Keeps-watch :
        (source target : Api) (timeout : ℕ) (received : Bool)
        → Keeps
            (total E laws)
            (loop_for E timeout (λ _. watch_large E runner source target) received)
    Keeps-watch source target timeout received =
        Keeps-loop_for E laws timeout _ received (λ _ b. Paced-watch_large source target b)

    pub Keeps-scenario_large_message : Keeps (total E laws) (scenario_large_message E runner)
    unfolding scenario_large_message pair
    Keeps-scenario_large_message = search (step_rules, Keeps-watch) depth 16
