-- ===== src/Peers/Total.antt =====
-- The steps on peers and discovery end and move forward.
use local_peer_connections.Prelude.{ℕ, suc, String, true, false, List, [], ◌∷◌}
use local_peer_connections.Python.Value.{Value, Fields}
use local_peer_connections.Exec.Contract.{
  Keeps, Keeps-lift, Keeps-bind, Keeps-if, Keeps-pure, Keeps-for_each, Keeps-all_of,
}
use local_peer_connections.World.{Env, IsEnv}
use local_peer_connections.Loop.Forward.{
  total, ResultEnds, and_then-ResultEnds, ok_or-ResultEnds, if-ResultEnds,
}
use local_peer_connections.Api.{Api}
use local_peer_connections.Api.Total.{api_rules}
use local_peer_connections.Runner.{Runner, walk}
use local_peer_connections.Runner.Total.{Keeps-wait_until}
use local_peer_connections.Peers.{
  Counts, mentions, count_event, count_events, peer_id, backend_resource_counts, is_discovered,
  assert_discovery, provision_peer, knows, provision_from, all_know, provision_known_peers,
}

pub walk_ends : (v : Value) → ResultEnds (walk v)
walk_ends v = ok_or-ResultEnds _ _ tt

mentions_ends : (method : String) (message : Value) → ResultEnds (mentions method message)
mentions_ends method message = and_then-ResultEnds _ _ (ok_or-ResultEnds _ _ tt) (λ b. tt)

count_event_ends : (event : Fields) (c : Counts) → ResultEnds (count_event event c)
unfolding count_event
count_event_ends event c = search (if-ResultEnds, and_then-ResultEnds, mentions_ends) depth 12

count_events_ends : (events : List Fields) (c : Counts) → ResultEnds (count_events events c)
unfolding count_events
count_events_ends [] c = tt
count_events_ends (e ∷ rest) c =
    and_then-ResultEnds _ _ (count_event_ends e c) (λ c'. count_events_ends rest c')

module _ (E : Env) (laws : IsEnv E) where
  pub Keeps-peer_id : (api other : Api) → Keeps (total E laws) (peer_id E api other)
  unfolding peer_id
  Keeps-peer_id api other = search (api_rules, Keeps-lift, walk_ends) depth 12

  pub Keeps-backend_resource_counts :
      (api : Api) → Keeps (total E laws) (backend_resource_counts E api)
  unfolding backend_resource_counts
  Keeps-backend_resource_counts api = search (api_rules, Keeps-lift, count_events_ends) depth 12

  Keeps-is_discovered : (api : Api) → Keeps (total E laws) (is_discovered E api)
  unfolding is_discovered
  Keeps-is_discovered api = search api_rules depth 12

  pub Keeps-assert_discovery : (runner : Runner) → Keeps (total E laws) (assert_discovery E runner)
  unfolding assert_discovery
  Keeps-assert_discovery runner = search (api_rules, Keeps-wait_until, Keeps-is_discovered) depth 12

  Keeps-provision_peer :
      (api : Api) (peer : String) → Keeps (total E laws) (provision_peer E api peer)
  unfolding provision_peer
  Keeps-provision_peer api peer = search api_rules depth 12

  Keeps-knows : (api : Api) (peer : String) → Keeps (total E laws) (knows E api peer)
  unfolding knows
  Keeps-knows api peer = search (api_rules, Keeps-lift, ok_or-ResultEnds) depth 12

  Keeps-provision_from :
      (peers : List String) (index : ℕ) (apis : List Api)
      → Keeps (total E laws) (provision_from E peers index apis)
  unfolding provision_from
  Keeps-provision_from peers index [] = Keeps-pure tt
  Keeps-provision_from peers index (api ∷ rest) =
      Keeps-bind _ _ (Keeps-for_each _ _ (Keeps-provision_peer api))
        (λ _. Keeps-provision_from peers (suc index) rest)

  pub Keeps-all_know :
      (peers : List String) (index : ℕ) (apis : List Api)
      → Keeps (total E laws) (all_know E peers index apis)
  unfolding all_know
  Keeps-all_know peers index [] = Keeps-pure true
  Keeps-all_know peers index (api ∷ rest) =
      Keeps-bind _ _ (Keeps-all_of _ _ (Keeps-knows api)) (λ held.
        Keeps-if held _ _ (λ _. Keeps-all_know peers (suc index) rest) (λ _. Keeps-pure false))

  pub Keeps-provision_known_peers :
      (runner : Runner) → Keeps (total E laws) (provision_known_peers E runner)
  unfolding provision_known_peers
  Keeps-provision_known_peers runner =
      search (api_rules, Keeps-wait_until, Keeps-provision_from, Keeps-all_know) depth 14
