-- ===== src/Peers/Provisioned.antt =====
-- What `provision_known_peers` has achieved when it returns.
use local_peer_connections.Prelude.{ℕ, suc, String, ◌≡◌, ap, ◌∙◌, true, some, List, [], ◌∷◌}
use local_peer_connections.Python.Value.{Fields, list, nil, get_or, holds_text}
use local_peer_connections.Exec.{ok, map_each, all_of, or_raise}
use local_peer_connections.Exec.Inversion.{bind-ok, pure-ok, lift-ok, ok_or-ok, or_raise-ok}
use local_peer_connections.Exec.Each.{Chain, Chain-map, guard-true, all_of-true}
use local_peer_connections.World.{Env, IsEnv, State}
use local_peer_connections.Api.{Api, snapshot}
use local_peer_connections.Runner.{Runner}
use local_peer_connections.Runner.Waited.{wait_until-Returned}
use local_peer_connections.Peers.{
  local_peers, others, knows, all_know, provision_from, provision_known_peers,
}
use local_peer_connections.Peers.Total.{Keeps-all_know}

module _ (E : Env) where
  -- From `s` to `t`, a snapshot of the device has listed the peer.
  abbrev pub Knows : Api → String → State E → State E → Type 0
  Knows api peer s t =
      (d : Fields) × (snapshot E api s ≡ (ok d, t))
      × (holds_text peer (get_or "knownPeerIds" (list nil) d) ≡ some true)

  -- From `s` to `t`, each device, from number `index` on, has listed the peer id of every other one.
  abbrev pub AllKnow : List String → ℕ → List Api → State E → State E → Type 0
  AllKnow peers index [] s t = s ≡ t
  AllKnow peers index (api ∷ rest) s t =
      (u : State E) × Chain (Knows api) (others index 0 peers) s u
      × AllKnow peers (suc index) rest u t

  knows-Knows :
      (api : Api) (peer : String) (s t : State E)
      → knows E api peer s ≡ (ok true, t)
      → Knows api peer s t
  unfolding knows
  knows-Knows api peer s t h =
      let (d, u, shot, rest) = bind-ok (snapshot E api) _ s true t h in
      let (e, q) = lift-ok _ true u t rest in
      (d, shot ∙ ap (λ (z : State E). (ok d, z)) q, ok_or-ok _ _ true e)

  all_know-AllKnow :
      (peers : List String) (index : ℕ) (apis : List Api) (s t : State E)
      → all_know E peers index apis s ≡ (ok true, t)
      → AllKnow peers index apis s t
  unfolding all_know
  all_know-AllKnow peers index [] s t h = (pure-ok true true s t h).1
  all_know-AllKnow peers index (api ∷ rest) s t h =
      let (held, u, ran, rest_ran) = bind-ok (all_of (knows E api) _) _ s true t h in
      let (e, later) = guard-true held (all_know E peers (suc index) rest) u t rest_ran in
      let each =
        all_of-true (knows E api) (others index 0 peers) s u (ran ∙ ap (λ b. (ok b, u)) e) in
      (
        u,
        Chain-map (knows-Knows api) (others index 0 peers) s u each,
        all_know-AllKnow peers (suc index) rest u t later,
      )

  -- In a lawful environment, if provisioning returns, then each device reported a peer id of its own,
  -- and the last requests were snapshots in which each device in turn listed the peer id of every
  -- other device.
  pub provisioned :
      IsEnv E
      → (runner : Runner) (x : Unit {0}) (s t : State E)
      → provision_known_peers E runner s ≡ (ok x, t)
      → (snapshots : List Fields) × (peers : List String) × (u v : State E) × (map_each
            (snapshot E)
            runner.apis
            s
          ≡ (ok snapshots, u))
        × (local_peers snapshots ≡ some peers)
        × AllKnow peers 0 runner.apis v t
  unfolding provision_known_peers
  provisioned laws runner x s t h =
      let (snapshots, u, shots, h1) = bind-ok (map_each (snapshot E) runner.apis) _ s x t h in
      let (peers, v, found, h2) = bind-ok (or_raise (local_peers snapshots) _) _ u x t h1 in
      let (y, w, sent, h3) = bind-ok (provision_from E peers 0 runner.apis) _ v x t h2 in
      let (s1, known) =
        wait_until-Returned E laws _ (Keeps-all_know E laws peers 0 runner.apis) _ _ x w t h3 in
      (
        snapshots,
        peers,
        u,
        s1,
        shots,
        (or_raise-ok (local_peers snapshots) _ peers u v found).0,
        all_know-AllKnow peers 0 runner.apis s1 t known,
      )
