-- ===== src/Scenario/Traffic/Total.antt =====
-- The soak, the star and the mixed traffic end, whatever the devices answer.
use local_peer_connections.Prelude.{ℕ, ◌*◌, String, ltb, arith}
use local_peer_connections.Exec.Contract.{Keeps}
use local_peer_connections.World.{Env, IsEnv}
use local_peer_connections.Loop.{loop_for}
use local_peer_connections.Loop.Forward.{total}
use local_peer_connections.Loop.Total.{
  Paced, Paced-done, Paced-more, Paced-if, Paced-bind, Keeps-loop_for,
}
use local_peer_connections.Api.{Api}
use local_peer_connections.Api.Total.{Keeps-events}
use local_peer_connections.Runner.{Runner}
use local_peer_connections.Runner.Found.{IsTest, Keeps-wait_for_event}
use local_peer_connections.Scenario.Total.{step_rules, Keeps-send_reliable}
use local_peer_connections.Scenario.{is_intact}
use local_peer_connections.Scenario.Traffic.{
  Tally, soak_round, grace_round, scenario_soak, dial, scenario_star, exchange,
  scenario_bidirectional_mixed,
}

pub is_intact-IsTest : (size : ℕ) → IsTest (is_intact size)
unfolding is_intact
is_intact-IsTest size event = tt

module _ (E : Env) (laws : IsEnv E) (runner : Runner) where
  Paced-soak_round :
      (source target : Api) (peer : String) (t : Tally)
      → Paced E laws (soak_round E runner source target peer t)
  unfolding soak_round
  Paced-soak_round source target peer t =
      Paced-bind E laws _ _ (Keeps-send_reliable E laws source peer 32) (λ _.
        Paced-bind E laws _ _ (search step_rules depth 12) (λ _.
          Paced-bind E laws _ _ (Keeps-events E laws target)
            (λ polled. Paced-more E laws 1000 _ (omega arith))))

  Paced-grace_round : (target : Api) (t : Tally) → Paced E laws (grace_round E runner target t)
  unfolding grace_round
  Paced-grace_round target t =
      Paced-if E laws (ltb t.received t.sent) _ _
        (λ _.
          Paced-bind E laws _ _ (Keeps-events E laws target)
            (λ polled. Paced-more E laws 100 _ (omega arith)))
        (λ _. Paced-done E laws t)

  Keeps-soak :
      (source target : Api) (peer : String) (t : Tally)
      → Keeps
          (total E laws)
          (loop_for E (runner.soak_seconds * 1000) (λ _. soak_round E runner source target peer) t)
  Keeps-soak source target peer t =
      Keeps-loop_for E laws _ _ t (λ _ u. Paced-soak_round source target peer u)

  Keeps-grace :
      (target : Api) (timeout : ℕ) (t : Tally)
      → Keeps (total E laws) (loop_for E timeout (λ _. grace_round E runner target) t)
  Keeps-grace target timeout t =
      Keeps-loop_for E laws timeout _ t (λ _ u. Paced-grace_round target u)

  pub Keeps-scenario_soak : Keeps (total E laws) (scenario_soak E runner)
  unfolding scenario_soak
  Keeps-scenario_soak = search (step_rules, Keeps-soak, Keeps-grace) depth 16

  Keeps-dial : (center target : Api) → Keeps (total E laws) (dial E runner center target)
  unfolding dial
  Keeps-dial center target = search step_rules depth 12

  pub Keeps-scenario_star : (n : ℕ) → Keeps (total E laws) (scenario_star E runner n)
  unfolding scenario_star
  Keeps-scenario_star n = search (step_rules, Keeps-dial) depth 16

  Keeps-exchange :
      (deadline : ℕ) (source target : Api) (peer : String) (size : ℕ)
      → Keeps (total E laws) (exchange E runner deadline source target peer size)
  unfolding exchange
  Keeps-exchange deadline source target peer size =
      search (step_rules, Keeps-wait_for_event, is_intact-IsTest) depth 16

  pub Keeps-scenario_bidirectional_mixed :
      Keeps (total E laws) (scenario_bidirectional_mixed E runner)
  unfolding scenario_bidirectional_mixed
  Keeps-scenario_bidirectional_mixed = search (step_rules, Keeps-exchange) depth 20
