-- ===== src/Links/Traffic/Total.antt =====
-- The checks on two devices and their window end, whatever the devices answer.
use local_peer_connections.Prelude.{ℕ, ◌*◌, String, Option, none, some, List, [], ◌∷◌, arith}
use local_peer_connections.Python.Value.{Value, Fields, get}
use local_peer_connections.Exec.{Message}
use local_peer_connections.Exec.Contract.{Keeps, Keeps-lift}
use local_peer_connections.World.{Env, IsEnv}
use local_peer_connections.Loop.Forward.{total, ResultEnds, and_then-ResultEnds}
use local_peer_connections.Api.{Api}
use local_peer_connections.Api.Total.{api_rules}
use local_peer_connections.Peers.Total.{walk_ends}
use local_peer_connections.Links.Total.{in_set_ends, Keeps-watch}
use local_peer_connections.Scenario.Numbers.{value_get_ends}
use local_peer_connections.Links.Traffic.{
  is_disturbed, concerned, only_ready, check_undisturbed, report_unready, check_traffic,
  assert_traffic, traffic_window,
}

is_disturbed_ends :
    (expected : Option String) (event : Fields) → ResultEnds (is_disturbed expected event)
unfolding is_disturbed
is_disturbed_ends expected event =
    and_then-ResultEnds _ _ (in_set_ends _ (get "type" event)) (λ held. tt)

concerned_ends :
    (expected : Option String) (listed : List Value) → ResultEnds (concerned expected listed)
unfolding concerned
concerned_ends none listed = tt
concerned_ends (some peer) [] = tt
concerned_ends (some peer) (c ∷ rest) =
    and_then-ResultEnds _ _ (value_get_ends _ _ c)
      (λ v. and_then-ResultEnds _ _ (concerned_ends (some peer) rest) (λ found. tt))

only_ready_ends : (found : List Value) → ResultEnds (only_ready found)
unfolding only_ready
only_ready_ends [] = tt
only_ready_ends (c ∷ []) = and_then-ResultEnds _ _ (value_get_ends _ _ c) (λ v. tt)
only_ready_ends (c ∷ d ∷ rest) = tt

module _ (E : Env) (laws : IsEnv E) where
  Keeps-check_undisturbed :
      (m : Message) (expected : Option String) (event : Fields)
      → Keeps (total E laws) (check_undisturbed E m expected event)
  unfolding check_undisturbed
  Keeps-check_undisturbed m expected event =
      search (api_rules, Keeps-lift, is_disturbed_ends) depth 12

  Keeps-report_unready :
      (scenario : String) (phase : Message) (expected : Option String) (listed : Value) (api : Api)
      → Keeps (total E laws) (report_unready E scenario phase expected listed api)
  unfolding report_unready
  Keeps-report_unready scenario phase expected listed api = search api_rules depth 12

  Keeps-check_traffic :
      (scenario : String) (phase : Message) (peers : Option (List (String × String))) (api : Api)
      → Keeps (total E laws) (check_traffic E scenario phase peers api)
  unfolding check_traffic
  Keeps-check_traffic scenario phase peers api =
      search
        (
          api_rules, Keeps-lift, walk_ends, concerned_ends, only_ready_ends,
          Keeps-check_undisturbed, Keeps-report_unready,
        )
        depth 16

  Keeps-assert_traffic :
      (scenario : String) (devices : Api × Api) (phase : Message)
      (peers : Option (List (String × String)))
      → Keeps (total E laws) (assert_traffic E scenario devices phase peers)
  unfolding assert_traffic
  Keeps-assert_traffic scenario (first, second) phase peers =
      search (api_rules, Keeps-check_traffic) depth 8

  -- In a lawful environment, the window in which two devices are checked ends whatever the devices
  -- answer, and neither the clock nor a cursor goes back.
  pub Keeps-traffic_window :
      (scenario : String) (devices : Api × Api) (peers : Option (List (String × String)))
      (seconds : ℕ)
      → Keeps (total E laws) (traffic_window E scenario devices peers seconds)
  unfolding traffic_window
  Keeps-traffic_window scenario devices peers seconds =
      Keeps-watch E laws 500 (seconds * 1000) _ (omega arith)
        (Keeps-assert_traffic scenario devices _ peers)
