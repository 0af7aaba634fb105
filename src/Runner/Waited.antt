-- ===== src/Runner/Waited.antt =====
-- A wait that returns has seen its predicate hold.
use local_peer_connections.Prelude.{ℕ, ◌≡◌, ◌∙◌, subst, Bool, true}
use local_peer_connections.Exec.{Message, Result, ok, Exec}
use local_peer_connections.Exec.Inversion.{bind-ok, pure-ok}
use local_peer_connections.Exec.Contract.{Keeps, Keeps-bind, Keeps-pure}
use local_peer_connections.World.{Env, IsEnv, State}
use local_peer_connections.Loop.Forward.{total}
use local_peer_connections.Loop.Sound.{WaitEnds, wait_ends}
use local_peer_connections.Runner.{plain, wait_until}

module _ (E : Env) (laws : IsEnv E) (m : Exec (State E) Bool) (keeps : Keeps (total E laws) m) where
  plain-true :
      (x y : Unit {0}) (s t : State E) → plain E m x s ≡ (ok (true, y), t) → m s ≡ (ok true, t)
  plain-true x y s t h =
      let (held, u, ran, rest) = bind-ok m _ s (true, y) t h in
      let (e, q) = pure-ok (held, tt) (true, y) u t rest in ran ∙ λ i. (ok (e i).0, q i)

  -- In the state in which `wait_until` returns, a call of the predicate has just held.
  pub wait_until-Returned :
      (description : Message) (timeout : ℕ) (x : Unit {0}) (s t : State E)
      → wait_until E m description timeout s ≡ (ok x, t)
      → (u : State E) × (m u ≡ (ok true, t))
  unfolding wait_until
  wait_until-Returned description timeout x s t h =
      let ends =
        wait_ends E laws (plain E m) (λ l. Keeps-bind m _ keeps (λ b. Keeps-pure (b, tt)))
          description timeout tt s in
      let (l, u, ran) =
        subst
          (λ (q : Result (Unit {0}) × State E).
            WaitEnds E laws (plain E m) description timeout s q.0 q.1)
          h ends in
      (u, plain-true l x u t ran)
