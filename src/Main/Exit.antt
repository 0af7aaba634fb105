-- ===== src/Main/Exit.antt =====
-- The results that `main` prints, and the exit status that it gives.
use local_peer_connections.Prelude.{
  ℕ, ◌≤◌, String, ◌≡◌, refl, sym, ap, subst, Bool, true, false, ◌&&◌, List, [], ◌∷◌, length, ltb,
  ltb→lt, ◌<◌, arith, ◌⊎◌, inl, inr, if◌then◌else◌,
}
use local_peer_connections.Prelude.Int.{pos}
use local_peer_connections.Python.Value.{end}
use local_peer_connections.Exec.{
  Message, failure, blocked, builtin, diverged, Result, ok, err, Exec, pure, lift, fold, ◌>>=◌,
}
use local_peer_connections.Exec.Inversion.{bind-ok, pure-ok, raise-ne-ok}
use local_peer_connections.World.{Env, State}
use local_peer_connections.Loop.{monotonic}
use local_peer_connections.Runner.{Runner}
use local_peer_connections.Main.{
  Arguments, Status, passed, was_blocked, failed, Outcome, make_runner, is_failed, is_passed,
  all_passed, new_runner, attempt, verdict, judge, metrics_of, run_one, run_all, main,
}

-- The status that an end of the `try` block must be given.
abbrev pub Shows : Status → Result (Unit {0}) → Type 0
Shows passed r = r ≡ ok tt
Shows was_blocked r = (m : Message) × (r ≡ err (blocked m))
Shows failed r = (m : Message) × (r ≡ err (failure m))

module _ (E : Env) (run : Runner → String → Exec (State E) (Unit {0})) (args : Arguments) where
  -- The scenario ran, from cursors that are all 0 and no metrics, and the outcome names it and says
  -- how it ended.
  pub record Judged (name : String) (o : Outcome) : Type 0 where
    pub named : o.scenario ≡ E.upper name
    pub start : State E
    pub fresh : start.cursor ≡ (λ _. pos 0)
    pub clean : start.metrics ≡ end
    pub shows : Shows o.status (attempt E run args (make_runner args) name start).0

  -- The outcomes are those of the scenarios in their order, up to the first that failed.
  pub data Recorded : List String → List Outcome → Type 0 where
    nothing : Recorded [] []
    stopped :
        {name : String} {rest : List String} {o : Outcome}
        → Judged name o
        → o.status ≡ failed
        → Recorded (name ∷ rest) (o ∷ [])
    went_on :
        {name : String} {rest : List String} {o : Outcome} {os : List Outcome}
        → Judged name o
        → is_failed o.status ≡ false
        → Recorded rest os
        → Recorded (name ∷ rest) (o ∷ os)

  verdict-Shows :
      (r : Result (Unit {0})) (x : Status × Message) (s t : State E)
      → verdict E run r s ≡ (ok x, t)
      → Shows x.0 r
  verdict-Shows (ok u) x s t h =
      subst (λ (y : Status × Message). Shows y.0 (ok u)) (pure-ok (passed, []) x s t h).0 refl
  verdict-Shows (err (blocked m)) x s t h =
      subst (λ (y : Status × Message). Shows y.0 (err (blocked m)))
        (pure-ok (was_blocked, m) x s t h).0 (m, refl)
  verdict-Shows (err (failure m)) x s t h =
      subst (λ (y : Status × Message). Shows y.0 (err (failure m))) (pure-ok (failed, m) x s t h).0
        (m, refl)
  verdict-Shows (err (builtin b)) x s t h = absurd (raise-ne-ok (builtin b) x s t h)
  verdict-Shows (err diverged) x s t h = absurd (raise-ne-ok diverged x s t h)

  judge-Shows :
      (m : Exec (State E) (Unit {0})) (x : Status × Message) (s t : State E)
      → judge E run m s ≡ (ok x, t)
      → Shows x.0 (m s).0
  unfolding judge
  judge-Shows m x s t h = verdict-Shows (m s).0 x (m s).1 t h

  new_runner-fresh :
      (a : Unit {0}) (s u : State E) → new_runner E run s ≡ (ok a, u) → u.cursor ≡ (λ _. pos 0)
  unfolding new_runner
  new_runner-fresh a s u h = sym (ap (λ (x : Result (Unit {0}) × State E). x.1.cursor) h)

  new_runner-clean :
      (a : Unit {0}) (s u : State E) → new_runner E run s ≡ (ok a, u) → u.metrics ≡ end
  unfolding new_runner
  new_runner-clean a s u h = sym (ap (λ (x : Result (Unit {0}) × State E). x.1.metrics) h)

  run_one-Judged :
      (name : String) (o : Outcome) (s t : State E)
      → run_one E run args name s ≡ (ok o, t)
      → Judged name o
  unfolding run_one
  run_one-Judged name o s t h =
      let (started, s0, clocked, h0) = bind-ok (monotonic E) _ s o t h in
      let (a, u, renewed, h1) = bind-ok (new_runner E run) _ s0 o t h0 in
      let (x, v, judged, h2) = bind-ok (judge E run _) _ u o t h1 in
      let (notes, w, read, h3) = bind-ok (fold _ _ _) _ v o t h2 in
      let (ended, w1, timed, h4) = bind-ok (monotonic E) _ w o t h3 in
      let (found, w2, kept, h5) = bind-ok (metrics_of E run) _ w1 o t h4 in
      let (lines, w3, printed, h6) = bind-ok (lift _) _ w2 o t h5 in
      let (same, _) = pure-ok _ o w3 t h6 in
      record {
        named = sym (ap (λ (y : Outcome). y.scenario) same);
        start = u;
        fresh = new_runner-fresh a s0 u renewed;
        clean = new_runner-clean a s0 u renewed;
        shows =
            subst (λ (y : Outcome). Shows y.status (attempt E run args (make_runner args) name u).0)
              same (judge-Shows _ x u v judged);
      }

  is_failed-failed : (status : Status) → is_failed status ≡ true → status ≡ failed
  is_failed-failed failed h = refl
  is_failed-failed passed h = cc
  is_failed-failed was_blocked h = cc

  run_all-Recorded :
      (names : List String) (os : List Outcome) (s t : State E)
      → run_all E run args names s ≡ (ok os, t)
      → Recorded names os
  unfolding run_all
  run_all-Recorded [] os s t h = subst (Recorded []) (pure-ok [] os s t h).0 nothing
  run_all-Recorded (name ∷ rest) os s t h =
      let (o, u, ran, h1) = bind-ok (run_one E run args name) _ s os t h in
      after (λ later v w. run_all-Recorded rest later v w) o u (is_failed o.status)
        (run_one-Judged name o s u ran) refl h1
    where
      after :
          ((later : List Outcome) (v w : State E)
            → run_all E run args rest v ≡ (ok later, w)
            → Recorded rest later)
          → (o : Outcome) (u : State E) (b : Bool) → Judged name o
          → is_failed o.status ≡ b
          → (if b then pure (o ∷ []) else (do later ← run_all E run args rest; pure (o ∷ later))) u
            ≡ (ok os, t)
          → Recorded (name ∷ rest) os
      after ih o u true j e k =
          subst (Recorded (name ∷ rest)) (pure-ok (o ∷ []) os u t k).0
            (stopped j (is_failed-failed o.status e))
      after ih o u false j e k =
          let (later, v, ran, ended) = bind-ok (run_all E run args rest) _ u os t k in
          subst (Recorded (name ∷ rest)) (pure-ok (o ∷ later) os v t ended).0
            (went_on j e (ih later u v ran))

  -- Every scenario of the list ran and passed.
  abbrev pub AllPass : List String → List Outcome → Type 0
  AllPass [] [] = Unit
  AllPass (name ∷ names) (o ∷ os) = (Judged name o × (o.status ≡ passed)) × AllPass names os
  AllPass _ _ = ⊥

  is_passed-passed : (status : Status) → is_passed status ≡ true → status ≡ passed
  is_passed-passed passed h = refl
  is_passed-passed failed h = cc
  is_passed-passed was_blocked h = cc

  Recorded-AllPass :
      (names : List String) (os : List Outcome)
      → Recorded names os
      → all_passed os ≡ true
      → AllPass names os
  unfolding all_passed
  Recorded-AllPass [] [] nothing h = tt
  Recorded-AllPass [] (o ∷ os) r h = elim r [ ]
  Recorded-AllPass (name ∷ rest) [] r h = elim r [ ]
  Recorded-AllPass (name ∷ rest) (o ∷ []) (stopped j e) h = absurd (both o.status e h)
    where
      both : (status : Status) → status ≡ failed → is_passed status && true ≡ true → ⊥
      both failed p q = cc
      both passed p q = cc
      both was_blocked p q = cc
  Recorded-AllPass (name ∷ rest) (o ∷ os) (went_on j e r) h =
      ((j, is_passed-passed o.status (ground arith)), Recorded-AllPass rest os r (ground arith))

  -- What a run that ends with a status has done.
  pub record Reported (os : List Outcome) (status : ℕ) : Type 0 where
    pub devices : 2 ≤ length args.device
    pub recorded : Recorded args.scenario os
    pub exit : status ≡ (if all_passed os then 0 else 1)

  -- If `main` returns a status and the outcomes, then either fewer than two devices were given and
  -- the status is 2; or there are two devices, the outcomes are those of the selected scenarios in
  -- their order, up to and with the first that failed, each with the status that tells how its run
  -- from fresh cursors and no metrics ended, and the exit status is 0 if all of them passed and 1
  -- if not.
  pub main_recorded :
      (os : List Outcome) (status : ℕ) (s t : State E)
      → main E run args s ≡ (ok (os, status), t)
      → ((length args.device < 2) × (status ≡ 2)) ⊎ Reported os status
  unfolding main
  main_recorded os status s t h = ended (ltb (length args.device) 2) refl h
    where
      ended :
          (b : Bool)
          → ltb (length args.device) 2 ≡ b
          → (if b then pure {A = List Outcome × ℕ} ([], 2) else (do
            results ← run_all E run args args.scenario
            pure {A = List Outcome × ℕ} (results, if all_passed results then 0 else 1)))
              s
            ≡ (ok (os, status), t)
          → ((length args.device < 2) × (status ≡ 2)) ⊎ Reported os status
      ended true e k = inl (
        ltb→lt (length args.device) 2 e,
        sym (ap (λ (x : List Outcome × ℕ). x.1) (pure-ok _ (os, status) s t k).0),
      )
      ended false e k =
          let (results, u, ran, ended) =
            bind-ok (run_all E run args args.scenario) _ s (os, status) t k in
          let (same, _) = pure-ok _ (os, status) u t ended in
          subst
            (λ (x : List Outcome × ℕ). ((length args.device < 2) × (x.1 ≡ 2)) ⊎ Reported x.0 x.1)
            same
            (inr (record {
              devices = ground arith;
              recorded = run_all-Recorded args.scenario results s u ran;
              exit = refl;
            }))

  -- If `main` exits with status 0, then at least two devices were given, there is one outcome for
  -- each selected scenario, in their order, and each scenario ran from fresh cursors and returned.
  pub main_passed :
      (os : List Outcome) (s t : State E)
      → main E run args s ≡ (ok (os, 0), t)
      → (2 ≤ length args.device) × AllPass args.scenario os
  main_passed os s t h = elim (main_recorded os 0 s t h) [
    | inl (few, e) ↦ absurd (omega arith)
    | inr r ↦
        (r.devices, Recorded-AllPass args.scenario os r.recorded (passes (all_passed os) r.exit))
  ]
    where
      passes : (b : Bool) → ◌≡◌ {A = ℕ} 0 (if b then 0 else 1) → b ≡ true
      passes true e = refl
      passes false e = absurd (omega arith)
