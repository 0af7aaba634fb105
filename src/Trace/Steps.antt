-- ===== src/Trace/Steps.antt =====
-- What the shared steps of the tools keep of the requests that have been sent, for any contract
-- that a step without a request keeps, and a step with one request of a certain kind.
use local_peer_connections.Prelude.{
  ℕ, zero, suc, String, Bool, ◌≡◌, refl, Option, none, some, List, ◌∷◌, ltb,
}
use local_peer_connections.Python.Value.{Value, Fields}
use local_peer_connections.Exec.{Message, Error, Result, ok, err, Exec, pure, lift, diverged}
use local_peer_connections.Exec.Contract.{
  Contract, Keeps, Allowed, Keeps-lift, Keeps-pure, Keeps-raise, Keeps-bind, Keeps-if, keeps_rules,
}
use local_peer_connections.World.{Request, Reply, response, unavailable, garbled, Env, State}
use local_peer_connections.Loop.{
  Loop, done, more, monotonic, sleep, while_before, loop_for, poll, outcome, wait,
}
use local_peer_connections.Api.{
  Api, request_to, command_body, urlopen, read_reply, request, snapshot, get_cursor, consume,
  events, command,
}
use local_peer_connections.Runner.{Runner, plain, wait_until, drain_events}
use local_peer_connections.Trace.{traced, log}

module _ (E : Env) where
  -- `C` says nothing of errors, and of the states only what their requests say.
  pub record Logged (C : Contract (State (traced E))) (Plain : Request → Type 0) : Type 0 where
    pub any_error : (e : Error) → C.allows e
    pub silent : (s t : State (traced E)) → log E s ≡ log E t → C.rel s t
    pub asked : (r : Request) (s t : State (traced E)) → Plain r → log E t ≡ r ∷ log E s → C.rel s t

  module _ {C : Contract (State (traced E))} {Plain : Request → Type 0} (L : Logged C Plain) where
    pub any_end : {A : Type 0} (r : Result A) → Allowed C r
    any_end (ok a) = tt
    any_end (err e) = L.any_error e

    -- A step that sends nothing.
    pub Keeps-silent :
        {A : Type 0} (m : Exec (State (traced E)) A)
        → ((s : State (traced E)) → log E s ≡ log E (m s).1)
        → Keeps C m
    Keeps-silent m h = record {
      related = λ s. L.silent s (m s).1 (h s);
      allowed = λ s. any_end (m s).0;
    }

    Keeps-read_reply : (api : Api) (r : Reply) → Keeps C (read_reply (traced E) api r)
    unfolding read_reply
    Keeps-read_reply api (response v) = Keeps-pure v
    Keeps-read_reply api (unavailable fault e) = Keeps-raise _ (L.any_error _)
    Keeps-read_reply api garbled = Keeps-raise _ (L.any_error _)

    Keeps-urlopen : (r : Request) (t : ℕ) → Plain r → Keeps C (urlopen (traced E) r t)
    unfolding urlopen
    Keeps-urlopen r t h = record { related = λ s. L.asked r s _ h refl; allowed = λ s. tt }

    pub Keeps-request :
        (api : Api) (method path : String) (body : Option Value) (timeout : Option ℕ)
        → Plain (request_to api method path body)
        → Keeps C (request (traced E) api method path body timeout)
    unfolding request
    Keeps-request api method path body timeout h =
        Keeps-bind _ _ (Keeps-urlopen _ _ h) (λ reply. Keeps-read_reply api reply)

    pub Keeps-command :
        (api : Api) (action : String) (arguments : Fields) (timeout : Option ℕ)
        → Plain (request_to api "POST" "/command" (some (command_body action arguments)))
        → Keeps C (command (traced E) api action arguments timeout)
    unfolding command
    Keeps-command api action arguments timeout h =
        search (keeps_rules, Keeps-request, L.any_error, h) depth 10

    pub Keeps-monotonic : Keeps C (monotonic (traced E))
    unfolding monotonic
    Keeps-monotonic = Keeps-silent _ (λ s. refl)

    pub Keeps-sleep : (d : ℕ) → Keeps C (sleep (traced E) d)
    unfolding sleep
    Keeps-sleep d = Keeps-silent _ (λ s. refl)

    pub Keeps-lifted : {A : Type 0} (r : Result A) → Keeps C (lift r)
    Keeps-lifted r = Keeps-lift r (any_end r)

    module _
        (plain_get : (api : Api) (path : String) → Plain (request_to api "GET" path none)) where
      pub Keeps-snapshot : (api : Api) → Keeps C (snapshot (traced E) api)
      unfolding snapshot
      Keeps-snapshot api = search (keeps_rules, Keeps-request, plain_get, L.any_error) depth 10

      Keeps-get_cursor : (api : Api) → Keeps C (get_cursor (traced E) api)
      unfolding get_cursor
      Keeps-get_cursor api = Keeps-silent _ (λ s. refl)

      Keeps-consume : (api : Api) (vs : List Value) → Keeps C (consume (traced E) api vs)
      unfolding consume
      Keeps-consume api vs = Keeps-silent _ (λ s. refl)

      pub Keeps-events : (api : Api) → Keeps C (events (traced E) api)
      unfolding events
      Keeps-events api =
          search
            (
              keeps_rules, Keeps-get_cursor, Keeps-consume, Keeps-request, Keeps-lifted, plain_get,
              L.any_error,
            )
            depth 14

      pub Keeps-drain_events : (runner : Runner) → Keeps C (drain_events (traced E) runner)
      unfolding drain_events
      Keeps-drain_events runner = search (keeps_rules, Keeps-events) depth 8

    module _ {V : Type 0} where
      turned :
          (next : V → Exec (State (traced E)) (Loop V)) (turn : Loop V)
          → ((l : V) → Keeps C (next l))
          → Keeps C (elim turn [ done l ↦ pure (done l) | more l ↦ next l ])
      turned next (done l) k = Keeps-pure (done l)
      turned next (more l) k = k l

      pub Keeps-while_before :
          (fuel deadline : ℕ) (body : V → Exec (State (traced E)) (Loop V)) (l : V)
          → ((l' : V) → Keeps C (body l'))
          → Keeps C (while_before (traced E) fuel deadline body l)
      unfolding while_before
      Keeps-while_before zero deadline body l k = Keeps-raise diverged (L.any_error _)
      Keeps-while_before (suc fuel) deadline body l k =
          let rest = λ (l' : V). Keeps-while_before fuel deadline body l' k in
          Keeps-bind _ _ Keeps-monotonic (λ now.
            Keeps-if (ltb now deadline) _ _
              (λ _.
                Keeps-bind _ _ (k l)
                  (λ turn. turned (while_before (traced E) fuel deadline body) turn rest))
              (λ _. Keeps-pure (more l)))

      pub Keeps-loop_for :
          (timeout : ℕ) (body : ℕ → V → Exec (State (traced E)) (Loop V)) (l : V)
          → ((deadline : ℕ) (l' : V) → Keeps C (body deadline l'))
          → Keeps C (loop_for (traced E) timeout body l)
      unfolding loop_for
      Keeps-loop_for timeout body l k =
          Keeps-bind _ _ Keeps-monotonic (λ start. Keeps-while_before _ _ _ l (k _))

    Keeps-poll :
        (m : Exec (State (traced E)) Bool) (l : Unit {0})
        → Keeps C m
        → Keeps C (poll (traced E) (plain (traced E) m) l)
    unfolding poll
    Keeps-poll m l k =
        Keeps-bind _ _ (Keeps-bind _ _ k (λ held. Keeps-pure (held, tt))) (λ (held, l').
          Keeps-if held _ _ (λ _. Keeps-pure (done l'))
            (λ _. Keeps-bind _ _ (Keeps-sleep 250) (λ _. Keeps-pure (more l'))))

    Keeps-outcome :
        (description : Message) (ended : Loop (Unit {0}))
        → Keeps C (outcome (traced E) description ended)
    Keeps-outcome description (done l) = Keeps-pure l
    Keeps-outcome description (more l) = Keeps-raise _ (L.any_error _)

    pub Keeps-wait_until :
        (m : Exec (State (traced E)) Bool) (description : Message) (timeout : ℕ)
        → Keeps C m
        → Keeps C (wait_until (traced E) m description timeout)
    unfolding wait_until wait
    Keeps-wait_until m description timeout k =
        Keeps-bind _ _ (Keeps-loop_for timeout _ tt (λ deadline l. Keeps-poll m l k))
          (λ ended. Keeps-outcome description ended)
