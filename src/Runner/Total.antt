-- ===== src/Runner/Total.antt =====
-- The shared steps of the runner end and move forward.
use local_peer_connections.Prelude.{ℕ, Bool}
use local_peer_connections.Exec.{Message, Exec}
use local_peer_connections.Exec.Contract.{Keeps, Keeps-bind, Keeps-pure}
use local_peer_connections.World.{Env, IsEnv, State}
use local_peer_connections.Loop.Forward.{total}
use local_peer_connections.Loop.Total.{Keeps-wait}
use local_peer_connections.Api.{Api}
use local_peer_connections.Api.Total.{api_rules}
use local_peer_connections.Runner.{
  Runner, drain_events, plain, wait_until, presence_started, report_presence, check_health,
  preflight, reset_all,
}

module _ (E : Env) (laws : IsEnv E) where
  pub Keeps-drain_events : (runner : Runner) → Keeps (total E laws) (drain_events E runner)
  unfolding drain_events
  Keeps-drain_events runner = search api_rules depth 12

  pub Keeps-wait_until :
      (m : Exec (State E) Bool) (description : Message) (timeout : ℕ)
      → Keeps (total E laws) m
      → Keeps (total E laws) (wait_until E m description timeout)
  unfolding wait_until
  Keeps-wait_until m description timeout k =
      Keeps-wait E laws (plain E m) description timeout tt
        (λ _. Keeps-bind m _ k (λ b. Keeps-pure _))

  pub Keeps-presence_started : (api : Api) → Keeps (total E laws) (presence_started E api)
  unfolding presence_started
  Keeps-presence_started api = search api_rules depth 12

  Keeps-report_presence : (api : Api) → Keeps (total E laws) (report_presence E api)
  unfolding report_presence
  Keeps-report_presence api = search api_rules depth 12

  Keeps-check_health : (api : Api) → Keeps (total E laws) (check_health E api)
  unfolding check_health
  Keeps-check_health api = search (api_rules, Keeps-report_presence) depth 16

  pub Keeps-preflight : (runner : Runner) → Keeps (total E laws) (preflight E runner)
  unfolding preflight
  Keeps-preflight runner =
      search (api_rules, Keeps-check_health, Keeps-wait_until, Keeps-presence_started) depth 12

  pub Keeps-reset_all : (runner : Runner) → Keeps (total E laws) (reset_all E runner)
  unfolding reset_all
  Keeps-reset_all runner = search (api_rules, Keeps-preflight) depth 12
