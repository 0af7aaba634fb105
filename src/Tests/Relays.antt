-- ===== src/Tests/Relays.antt =====
-- IT-046 on a network of three devices on which every link is direct.
use local_peer_connections.Prelude.{ℕ, true, false, refl, ◌≡◌, str_eq, ◌≢◌, [], ◌∷◌}
use local_peer_connections.Prelude.Int.{pos}
use local_peer_connections.Python.Value.{
  Value, boolean, str, list, dict, cons, nil, field, end, is_str, get_or,
}
use local_peer_connections.Python.Text.{show, show_int}
use local_peer_connections.World.{response, garbled, Request, Env, State}
use local_peer_connections.Api.{Api, base}
use local_peer_connections.Runner.{Runner}
use local_peer_connections.Trace.{traced}
use local_peer_connections.Scenario.Relay.{scenario_friend_relay}
use local_peer_connections.Scenario.Relay.Edges.{is_cut, IsHealed}
use local_peer_connections.Scenario.Relay.Steps.{block_request}
use local_peer_connections.Scenario.Relay.Healed.{scenario_friend_relay-IsHealed}
use local_peer_connections.Tests.{network_of, alpha, beta, pair}

-- The answer of each device to each request: the edge to "A" is direct.
abbrev direct_edge : Value
direct_edge =
    dict (
      field "peerId" (str "A")
        (field "state" (str "ready") (field "isRelayed" (boolean false) end)))

abbrev mesh_answer : Value
mesh_answer = dict (
    field "ok" (boolean true) (
      field "result" (dict end) (
        field "localPeerId" (str "A")
          (field "connections" (list (cons direct_edge nil)) (field "events" (list nil) end)))))

abbrev mesh : Env
mesh = network_of (λ url. response mesh_answer)

abbrev gamma : Api
gamma = record { index = 2; device = record { label = "gamma"; port = pos 3 }; timeout = 5000 }

abbrev trio : Runner
trio = record pair { apis = alpha ∷ beta ∷ gamma ∷ [] }

mesh_parsed : (r : Request) (t : ℕ) (w : mesh.World) → (mesh.urlopen r t w).0 ≢ garbled
mesh_parsed r t w h = cc

abbrev before : State (traced mesh)
before = record { world = (0, []); cursor = λ i. pos 0; metrics = end }

-- A command that cuts the edge is seen, until one restores it.
cut_seen : is_cut "http://127.0.0.1:1/command" "A" (block_request alpha "A" true ∷ []) ≡ true
unfolding str_eq is_str get_or base show_int show
cut_seen = refl

restored_seen :
    is_cut "http://127.0.0.1:1/command" "A"
      (block_request alpha "A" false ∷ block_request alpha "A" true ∷ [])
    ≡ false
unfolding str_eq is_str get_or base show_int show
restored_seen = refl

scenario_friend_relay-IsHealed_example :
    IsHealed mesh "http://127.0.0.1:1/command" "A" before
      (scenario_friend_relay (traced mesh) trio before).1
scenario_friend_relay-IsHealed_example =
    scenario_friend_relay-IsHealed mesh mesh_parsed trio "http://127.0.0.1:1/command" "A" before
