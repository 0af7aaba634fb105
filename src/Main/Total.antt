-- ===== src/Main/Total.antt =====
-- The whole program ends, if each scenario does. A new `Runner` starts its cursors again, so that
-- only the clock moves forward.
use local_peer_connections.Prelude.{◌≤◌, String, List, [], ◌∷◌, arith, ltb, length}
use local_peer_connections.Exec.{failure, blocked, builtin, diverged, Result, ok, err, Exec}
use local_peer_connections.Exec.Contract.{
  Contract, Keeps, Keeps-bind, Keeps-if, Keeps-pure, Keeps-raise, Keeps-lift, Keeps-fold,
  keeps_rules, Allowed,
}
use local_peer_connections.World.{Env, IsEnv, State}
use local_peer_connections.Loop.Forward.{total, elapsed, Ends, Forward-refl, Keeps-monotonic}
use local_peer_connections.Runner.{Runner}
use local_peer_connections.Runner.Total.{Keeps-preflight}
use local_peer_connections.Peers.Total.{Keeps-provision_known_peers}
use local_peer_connections.Report.Total.{telemetry_lines_ends, Keeps-read_device}
use local_peer_connections.Main.{
  Arguments, is_failed, new_runner, attempt, verdict, judge, metrics_of, run_one, run_all, main,
}

module _ (E : Env) (laws : IsEnv E) (run : Runner → String → Exec (State E) (Unit {0})) where
  -- An action ends, and the clock does not go back.
  abbrev pub clocked : Contract (State E)
  clocked = record {
    rel = λ s t. elapsed E laws s ≤ elapsed E laws t;
    rel_refl = λ s. omega arith;
    rel_trans = λ s t u h k. omega (arith, h, k);
    allows = Ends;
  }

  clocked_of_total : {A : Type 0} (m : Exec (State E) A) → Keeps (total E laws) m → Keeps clocked m
  clocked_of_total {A} m k = record {
    related = λ s. (k.related s).clock;
    allowed = λ s. weaken (m s).0 (k.allowed s);
  }
    where
      weaken : (r : Result A) → Allowed (total E laws) r → Allowed clocked r
      weaken (ok a) h = h
      weaken (err e) h = h

  Keeps-new_runner : Keeps clocked (new_runner E run)
  unfolding new_runner
  Keeps-new_runner = record { related = λ s. omega arith; allowed = λ s. tt }

  Keeps-attempt :
      ((runner : Runner) (name : String) → Keeps (total E laws) (run runner name))
      → (args : Arguments) (runner : Runner) (name : String)
      → Keeps (total E laws) (attempt E run args runner name)
  unfolding attempt
  Keeps-attempt k args runner name = Keeps-bind _ _ (Keeps-preflight E laws runner) (λ _.
      Keeps-bind _ _
        (Keeps-if args.provision_known_peers _ _ (λ _. Keeps-provision_known_peers E laws runner)
          (λ _. Keeps-pure tt))
        (λ _. k runner _))

  Keeps-verdict : (r : Result (Unit {0})) → Allowed clocked r → Keeps clocked (verdict E run r)
  Keeps-verdict (ok u) h = Keeps-pure _
  Keeps-verdict (err (blocked m)) h = Keeps-pure _
  Keeps-verdict (err (failure m)) h = Keeps-pure _
  Keeps-verdict (err (builtin b)) h = Keeps-raise _ tt
  Keeps-verdict (err diverged) h = absurd h

  Keeps-judge : (m : Exec (State E) (Unit {0})) → Keeps clocked m → Keeps clocked (judge E run m)
  unfolding judge
  Keeps-judge m k = record {
    related = λ s.
        let v = Keeps-verdict (m s).0 (k.allowed s) in
        omega (arith, k.related s, v.related (m s).1);
    allowed = λ s. let v = Keeps-verdict (m s).0 (k.allowed s) in v.allowed (m s).1;
  }

  Keeps-metrics_of : Keeps (total E laws) (metrics_of E run)
  unfolding metrics_of
  Keeps-metrics_of = record { related = λ s. Forward-refl E laws s; allowed = λ s. tt }

  module _ (k : (runner : Runner) (name : String) → Keeps (total E laws) (run runner name))
      (args : Arguments) where
    Keeps-run_one : (name : String) → Keeps clocked (run_one E run args name)
    unfolding run_one
    Keeps-run_one name = Keeps-bind _ _ (clocked_of_total _ (Keeps-monotonic E laws)) (λ started.
        Keeps-bind _ _ Keeps-new_runner (λ _.
          Keeps-bind _ _ (Keeps-judge _ (clocked_of_total _ (Keeps-attempt k args _ name)))
            (λ end_of_try.
              Keeps-bind _ _
                (Keeps-fold _ _ _
                  (λ api notes. clocked_of_total _ (Keeps-read_device E laws _ api notes)))
                (λ notes. clocked_of_total _ (
                  search
                    (
                      keeps_rules, Keeps-monotonic, Keeps-metrics_of, Keeps-lift,
                      telemetry_lines_ends,
                    )
                    depth 12)))))

    Keeps-run_all : (names : List String) → Keeps clocked (run_all E run args names)
    unfolding run_all
    Keeps-run_all [] = Keeps-pure []
    Keeps-run_all (name ∷ rest) = Keeps-bind _ _ (Keeps-run_one name) (λ o.
        Keeps-if (is_failed o.status) _ _ (λ _. Keeps-pure _)
          (λ _. Keeps-bind _ _ (Keeps-run_all rest) (λ later. Keeps-pure _)))

    -- In a lawful environment, if the run of each scenario name ends and moves forward, then `main`
    -- ends whatever the devices answer: it returns or raises, no loop of the model runs out of
    -- rounds, and the clock does not go back.
    pub Keeps-main : Keeps clocked (main E run args)
    unfolding main
    Keeps-main =
        Keeps-if (ltb (length args.device) 2) _ _ (λ _. Keeps-pure _)
          (λ _. Keeps-bind _ _ (Keeps-run_all args.scenario) (λ results. Keeps-pure _))
