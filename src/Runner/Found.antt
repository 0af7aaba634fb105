-- ===== src/Runner/Found.antt =====
-- What `wait_for_event` has found when it returns.
use local_peer_connections.Prelude.{
  ℕ, ◌+◌, ◌≤◌, String, ◌≡◌, ◌∙◌, ap, Bool, true, false, Option, none, some, List, [], ◌∷◌, arith,
  Any, ◌⊎◌, inl, inr,
}
use local_peer_connections.Python.Value.{Fields, get, is_str}
use local_peer_connections.Exec.{
  text, Message, Error, failure, builtin, assertion_error, Result, ok, err, Exec, continue, lift,
  pure, ◌>>=◌, or_raise,
}
use local_peer_connections.Exec.Inversion.{bind-ok, bind-err, lift-ok, lift-err, pure-ok}
use local_peer_connections.Exec.Contract.{Keeps, Keeps-bind, Keeps-lift, Keeps-pure, Keeps-or_raise}
use local_peer_connections.World.{Env, IsEnv, State}
use local_peer_connections.Loop.{wait}
use local_peer_connections.Loop.Forward.{total, ResultEnds, elapsed}
use local_peer_connections.Loop.Total.{Keeps-wait}
use local_peer_connections.Loop.Sound.{Ran, wait_ends, WaitEnds}
use local_peer_connections.Api.{Api, label, events}
use local_peer_connections.Api.Total.{Keeps-events}
use local_peer_connections.Runner.{Test, first_match, seen, check_event, wait_for_event}

-- A test may raise, but is no exhausted loop of the model.
abbrev pub IsTest : Test → Type 0
IsTest p = (event : Fields) → ResultEnds (p event)

-- An event of the type that passes the test.
abbrev pub Passes : String → Test → Fields → Type 0
Passes event_type p event = (is_str event_type (get "type" event) ≡ true) × (p event ≡ ok true)

module _ (event_type : String) (p : Test) where
  -- The event found is one of those polled, of the type, and passes.
  abbrev pub Hit : Fields → List Fields → Type 0
  Hit event polled = Any (λ e. (e ≡ event) × Passes event_type p event) polled

  pub first_match-Hit :
      (polled : List Fields) (event : Fields)
      → first_match event_type p polled ≡ ok (some event)
      → Hit event polled
  unfolding first_match
  first_match-Hit [] event h = cc
  first_match-Hit (e ∷ rest) event h = ground (arith, first_match-Hit rest event)

  -- Nothing was found only if no polled event of the type passes.
  pub first_match-none :
      (polled : List Fields)
      → first_match event_type p polled ≡ ok none
      → Any (λ e. Passes event_type p e) polled
      → ⊥
  unfolding first_match
  first_match-none [] h a = a
  first_match-none (e ∷ rest) h (inl a) = ground arith
  first_match-none (e ∷ rest) h (inr a) =
      ground (arith, λ (q : first_match event_type p rest ≡ ok none). first_match-none rest q a)

  -- An error comes from the test at an event of the type.
  abbrev pub Raised : Error → List Fields → Type 0
  Raised e polled =
      Any (λ event. (is_str event_type (get "type" event) ≡ true) × (p event ≡ err e)) polled

  pub first_match-Raised :
      (polled : List Fields) (x : Error) → first_match event_type p polled ≡ err x → Raised x polled
  unfolding first_match
  first_match-Raised [] x h = cc
  first_match-Raised (e ∷ rest) x h = ground (arith, first_match-Raised rest x)

  first_match_ends :
      IsTest p → (polled : List Fields) → ResultEnds (first_match event_type p polled)
  unfolding first_match
  first_match_ends h [] = tt
  first_match_ends h (e ∷ rest) =
      elim (is_str event_type (get "type" e))
        as (λ b. ResultEnds (elim b [
          | false ↦ first_match event_type p rest
          | true ↦ elim (p e) [
            | ok true ↦ ok (some e)
            | ok false ↦ first_match event_type p rest
            | err x ↦ err x
          ]
        ])) [
          | false ↦ first_match_ends h rest
          | true ↦ passed (p e) (h e) (first_match_ends h rest)
        ]
    where
      passed :
          (r : Result Bool)
          → ResultEnds r
          → ResultEnds (first_match event_type p rest)
          → ResultEnds {A = Option Fields} (elim r [
            | ok true ↦ ok (some e)
            | ok false ↦ first_match event_type p rest
            | err x ↦ err x
          ])
      passed (ok true) a k = tt
      passed (ok false) a k = k
      passed (err x) a k = a

module _ (E : Env) (laws : IsEnv E) (api : Api) (event_type : String) (p : Test)
    (h : IsTest p) where
  Keeps-check_event :
      (found : Option Fields) → Keeps (total E laws) (check_event E api event_type p found)
  unfolding check_event
  Keeps-check_event found = Keeps-bind (events E api) _ (Keeps-events E laws api) (λ polled.
      Keeps-bind (lift (first_match event_type p polled)) _
        (Keeps-lift _ (first_match_ends event_type p h polled)) (λ hit. Keeps-pure _))

  pub Keeps-wait_for_event :
      (timeout : ℕ) → Keeps (total E laws) (wait_for_event E api event_type p timeout)
  unfolding wait_for_event
  Keeps-wait_for_event timeout =
      Keeps-bind _ _
        (Keeps-wait E laws (check_event E api event_type p) _ timeout none Keeps-check_event)
        (λ found. Keeps-or_raise found (builtin assertion_error) tt)

  -- A poll of the events in which `event` was found.
  abbrev pub FoundIn : Fields → State E → Type 0
  FoundIn event t =
      (polled : List Fields) × (s : State E) × (events E api s ≡ (ok polled, t))
      × Hit event_type p event polled

  abbrev pub EventEnds : ℕ → State E → Result Fields → State E → Type 0
  EventEnds timeout s (ok event) t = FoundIn event t
  EventEnds timeout s (err e) t =
      Ran (λ (_ : Unit {0}). events E api) (err e) t
      ⊎ ((polled : List Fields) × Raised event_type p e polled)
      ⊎ ((e
            ≡ failure (
                text "timeout waiting for "
                ∷ text (label api)
                ∷ text " event "
                ∷ text event_type
                ∷ []))
          × (elapsed E laws s + timeout ≤ elapsed E laws t))

  check_event-ok :
      (found hit : Option Fields) (s t : State E)
      → check_event E api event_type p found s ≡ (ok (true, hit), t)
      → (event : Fields) × (hit ≡ some event) × FoundIn event t
  unfolding check_event
  check_event-ok found hit s t e =
      let (polled, u, polls, rest) = bind-ok (events E api) _ s (true, hit) t e in
      let (match, v, matches, last) =
        bind-ok (lift (first_match event_type p polled)) _ u (true, hit) t rest in
      let (hits, same) = lift-ok (first_match event_type p polled) match u v matches in
      found_in polled u v match polls hits same last
    where
      found_in :
          (polled : List Fields) (u v : State E) (match : Option Fields)
          → events E api s ≡ (ok polled, u)
          → first_match event_type p polled ≡ ok match
          → u ≡ v
          → pure (seen E found match) v ≡ (ok (true, hit), t)
          → (event : Fields) × (hit ≡ some event) × FoundIn event t
      found_in polled u v none polls hits same last =
          let (no_hit, end) = pure-ok (false, found) (true, hit) v t last in cc
      found_in polled u v (some event) polls hits same last =
          let (is_hit, end) = pure-ok (true, some event) (true, hit) v t last in
          (
            event,
            cc,
            (
              polled,
              s,
              polls ∙ ap (λ (w : State E). (ok polled, w)) (same ∙ end),
              first_match-Hit event_type p polled event hits,
            ),
          )

  check_event-err :
      (found : Option Fields) (e : Error) (s t : State E)
      → check_event E api event_type p found s ≡ (err e, t)
      → Ran (λ (_ : Unit {0}). events E api) (err e) t
        ⊎ ((polled : List Fields) × Raised event_type p e polled)
  unfolding check_event
  check_event-err found e s t q = elim (bind-err (events E api) _ s e t q) [
    | inl polling ↦ inl (tt, s, polling)
    | inr (polled, u, polls, rest) ↦
        elim (bind-err (lift (first_match event_type p polled)) _ u e t rest) [
          | inl raised ↦ inr (
            polled,
            first_match-Raised event_type p polled e
                (lift-err (first_match event_type p polled) e u t raised).0,
          )
          | inr (match, v, matches, last) ↦ absurd (unfold pure in cc)
        ]
  ]

  -- If the test is no endless loop, `wait_for_event` ends in one of four ways. It returns an event
  -- of its type that passes the test and stands in the last response that was polled; a poll
  -- raised; the test raised at a polled event of the type; or the timeout failure came, at least
  -- `timeout` after the call. The assertion behind the wait never fails.
  pub wait_for_event_ends :
      (timeout : ℕ) (s : State E)
      → EventEnds timeout s
          (wait_for_event E api event_type p timeout s).0
          (wait_for_event E api event_type p timeout s).1
  unfolding wait_for_event ◌>>=◌
  wait_for_event_ends timeout s = ended (run s).0 (run s).1 (
      wait_ends E laws (check_event E api event_type p) Keeps-check_event description timeout none
        s)
    where
      description : Message
      description = text (label api) ∷ text " event " ∷ text event_type ∷ []

      run : Exec (State E) (Option Fields)
      run = wait E (check_event E api event_type p) description timeout none

      rest : Option Fields → Exec (State E) Fields
      rest found = or_raise found (builtin assertion_error)

      ended :
          (r : Result (Option Fields)) (t : State E)
          → WaitEnds E laws (check_event E api event_type p) description timeout s r t
          → EventEnds timeout s (continue r rest t).0 (continue r rest t).1
      ended (ok found) t (found', u, q) =
          let (event, same, located) = check_event-ok found' found u t q in
          rw same (unfold or_raise pure in located)
      ended (err e) t (inl (found', u, q)) = elim (check_event-err found' e u t q) [
        | inl a ↦ inl a
        | inr b ↦ inr (inl b)
      ]
      ended (err e) t (inr late) = inr (inr late)
