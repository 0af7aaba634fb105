-- ===== src/Scenario/Relay/Healed.antt =====
-- IT-046 leaves no edge cut, however it ends.
use local_peer_connections.Prelude.{
  ℕ, String, ◌≡◌, ◌≢◌, refl, ap, ◌∙◌, Bool, true, false, Option, none, some, List, ◌∷◌, ◌⊎◌, inl,
  inr, if◌then◌else◌,
}
use local_peer_connections.Exec.{
  Error, failure, blocked, builtin, diverged, Result, ok, err, pure, lift, catch, recover, continue,
  ◌>>=◌,
}
use local_peer_connections.Exec.Contract.{Keeps, Allowed, Keeps-bind, Keeps-pure, keeps_rules}
use local_peer_connections.World.{Request, garbled, Env, State}
use local_peer_connections.Api.{Api, request_to, command_body}
use local_peer_connections.Runner.{Runner}
use local_peer_connections.Scenario.{act, reliable}
use local_peer_connections.Trace.{traced, log}
use local_peer_connections.Trace.Steps.{
  any_end, Keeps-monotonic, Keeps-snapshot, Keeps-drain_events, Keeps-wait_until,
}
use local_peer_connections.Trace.Commands.{
  bind-log, lift-IsSilent, command-log, failing, command-Allowed,
}
use local_peer_connections.Scenario.Relay.{
  Trio, finally, set_blocked, partitioned, unblock, heal, cut_and_restore, id_of,
  scenario_friend_relay,
}
use local_peer_connections.Scenario.Relay.Steps.{block_request, Keeps-edges_direct, Keeps-recovery}
use local_peer_connections.Scenario.Relay.Edges.{
  is_cut, is_about, block_of-get, block_of-send, block_of-block, IsHealed, healing, IsPlain,
  healing-Logged, IsOther, cutting, Keeps-cutting,
}

module _ (E : Env)
    (parsed : (r : Request) (t : ℕ) (w : E.World) → (E.urlopen r t w).0 ≢ garbled) where
  get-IsPlain : (api : Api) (path : String) → IsPlain E (request_to api "GET" path none)
  unfolding IsPlain
  get-IsPlain api path url peer = block_of-get url peer api path

  send-IsPlain :
      (api : Api) (peer : String) (size : ℕ)
      → IsPlain E (
          request_to api "POST" "/command"
            (some (command_body "sendReliable" (reliable peer size))))
  unfolding IsPlain
  send-IsPlain api peer size url p = block_of-send url p api peer size

  recovered :
      (r : Result (Unit {0})) (u : State (traced E))
      → Allowed (failing E) r
      → recover (λ _. pure tt) r u ≡ (ok tt, u)
  unfolding failing pure
  recovered (ok x) u h = refl
  recovered (err (failure m)) u h = refl
  recovered (err (blocked m)) u h = refl
  recovered (err (builtin b)) u (m, e) = cc
  recovered (err diverged) u (m, e) = cc

  Keeps-set_blocked :
      (api : Api) (peer : String) (flag : Bool)
      → Keeps (failing E) (set_blocked (traced E) api peer flag)
  unfolding act
  Keeps-set_blocked api peer flag =
      Keeps-bind _ _ (command-Allowed E parsed api _ _ none) (λ _. Keeps-pure tt)

  module _ (runner : Runner) (t : Trio) where
    -- The handler of the `finally` block asks to restore an edge, and does not raise.
    unblock_runs :
        (api : Api) (peer : String) (s : State (traced E))
        → (u : State (traced E)) × (unblock (traced E) runner t api peer s ≡ (ok tt, u))
          × (log E u ≡ block_request api peer false ∷ log E s)
    unfolding unblock catch act pure
    unblock_runs api peer s =
        let m = set_blocked (traced E) api peer false in
        let k = Keeps-set_blocked api peer false in
        (
          (m s).1,
          recovered (m s).0 (m s).1 (k.allowed s),
          bind-log E _ _ (λ _ v. refl) s ∙ command-log E api _ _ none s,
        )

    heal-log :
        (s : State (traced E))
        → log E (heal (traced E) runner t s).1
          ≡ block_request t.c t.a_id false ∷ block_request t.a t.c_id false ∷ log E s
    unfolding heal ◌>>=◌
    heal-log s =
        let (u, ran, one) = unblock_runs t.a t.c_id s in
        let (v, ran', other) = unblock_runs t.c t.a_id u in
        ap
          (λ (q : Result (Unit {0}) × State (traced E)).
            log E (continue q.0 (λ _. unblock (traced E) runner t t.c t.a_id) q.1).1)
          ran
        ∙ ap (λ (q : Result (Unit {0}) × State (traced E)). log E q.1) ran'
        ∙ other
        ∙ ap (λ l. block_request t.c t.a_id false ∷ l) one

    -- What one more request about an edge makes of it.
    is_cut-block :
        (url peer : String) (api : Api) (other : String) (about : Bool) (l : List Request)
        → is_about url peer api other ≡ about
        → is_cut url peer (block_request api other false ∷ l)
          ≡ (if about then false else is_cut url peer l)
    is_cut-block url peer api other about l h =
        ap
          (λ (o : Option Bool). elim o as (λ _. Bool) [
            | some flag ↦ flag
            | none ↦ is_cut url peer l
          ])
          (block_of-block url peer api other false ∙ ap (λ b. if b then some false else none) h)
        ∙ chosen about
      where
        chosen :
            (b : Bool)
            → (elim (if b then some false else none) as (λ _. Bool) [
              | some flag ↦ flag
              | none ↦ is_cut url peer l
            ])
              ≡ (if b then false else is_cut url peer l)
        chosen true = refl
        chosen false = refl

    -- Behind the two requests of the `finally` block, both edges are restored.
    after_heal :
        (url peer : String) (l : List Request) (about_a about_c : Bool)
        → is_about url peer t.a t.c_id ≡ about_a
        → is_about url peer t.c t.a_id ≡ about_c
        → (is_cut url peer (block_request t.c t.a_id false ∷ block_request t.a t.c_id false ∷ l)
            ≡ false)
          ⊎ ((about_a ≡ false)
              × (about_c ≡ false)
              × (is_cut url peer
                    (block_request t.c t.a_id false ∷ block_request t.a t.c_id false ∷ l)
                  ≡ is_cut url peer l))
    after_heal url peer l about_a true p q =
        inl (is_cut-block url peer t.c t.a_id true (block_request t.a t.c_id false ∷ l) q)
    after_heal url peer l true false p q = inl (
        is_cut-block url peer t.c t.a_id false (block_request t.a t.c_id false ∷ l) q
        ∙ is_cut-block url peer t.a t.c_id true l p)
    after_heal url peer l false false p q = inr (
      refl,
      refl,
      is_cut-block url peer t.c t.a_id false (block_request t.a t.c_id false ∷ l) q
          ∙ is_cut-block url peer t.a t.c_id false l p,
    )

    finally-healing :
        (blocked_at : ℕ)
        → Keeps (healing E) (
            finally
              (traced E)
              (partitioned (traced E) runner t blocked_at)
              (heal (traced E) runner t))
    unfolding finally healing cutting IsOther
    finally-healing blocked_at = record {
      related = λ s url peer.
          let m = partitioned (traced E) runner t blocked_at in
          let k = Keeps-cutting E t runner blocked_at in
          let logged =
            bind-log E (heal (traced E) runner t) (λ _. lift (m s).0) (λ _. lift-IsSilent E (m s).0)
              (m s).1
            ∙ heal-log (m s).1 in
          elim (after_heal url peer (log E (m s).1) _ _ refl refl) [
            | inl e ↦ inl (ap (is_cut url peer) logged ∙ e)
            | inr (p, q, e) ↦ inr (ap (is_cut url peer) logged ∙ e ∙ k.related s url peer (p, q))
          ];
      allowed = λ s. any_end E (healing-Logged E) _;
    }

    Keeps-cut_and_restore : Keeps (healing E) (cut_and_restore (traced E) runner t)
    unfolding cut_and_restore
    Keeps-cut_and_restore =
        let logged = healing-Logged E in
        Keeps-bind _ _
          (Keeps-wait_until E logged _ _ _
            (Keeps-edges_direct E logged get-IsPlain send-IsPlain runner t))
          (λ _. Keeps-bind _ _ (Keeps-drain_events E logged get-IsPlain runner) (λ _.
            Keeps-bind _ _ (Keeps-monotonic E logged) (λ blocked_at.
              Keeps-bind _ _ (finally-healing blocked_at)
                (λ _. Keeps-recovery E logged get-IsPlain send-IsPlain runner t))))

  id_of-healing : (api : Api) → Keeps (healing E) (id_of (traced E) api)
  id_of-healing api =
      Keeps-bind _ _ (Keeps-snapshot E (healing-Logged E) get-IsPlain api) (λ d. Keeps-pure _)

  allowed_error : (e : Error) → (healing E).allows e
  unfolding healing
  allowed_error e = tt

  scenario-healing : (runner : Runner) → Keeps (healing E) (scenario_friend_relay (traced E) runner)
  unfolding scenario_friend_relay
  scenario-healing runner =
      search (keeps_rules, id_of-healing, Keeps-cut_and_restore, allowed_error) depth 12

  -- If every reply is JSON, then however the relay scenario ends, each edge of a device to a peer
  -- is not cut by the last command about it, or it is as it was before the scenario.
  pub scenario_friend_relay-IsHealed :
      (runner : Runner) (url peer : String) (s : State (traced E))
      → IsHealed E url peer s (scenario_friend_relay (traced E) runner s).1
  unfolding healing
  scenario_friend_relay-IsHealed runner url peer s =
      let k = scenario-healing runner in k.related s url peer
