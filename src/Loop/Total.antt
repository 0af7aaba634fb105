-- ===== src/Loop/Total.antt =====
-- Every bounded loop ends: the clock of a lawful environment carries it past its deadline within
-- the rounds that the model gives it.
use local_peer_connections.Prelude.{
  ℕ, zero, suc, ◌+◌, ◌*◌, ◌/◌, ◌≤◌, ◌≡◌, refl, Bool, true, false, arith, ltb, ltb→lt, Bool-cases,
  inl, inr, if◌then◌else◌,
}
use local_peer_connections.Exec.{
  Message, Error, Result, ok, err, Exec, pure, raise, continue, ◌>>=◌, ◌>>◌,
}
use local_peer_connections.Exec.Contract.{Allowed, Keeps, Keeps-pure, Keeps-raise, Keeps-bind}
use local_peer_connections.World.{Env, IsEnv, State}
use local_peer_connections.Loop.{
  Loop, done, more, min_pause, rounds, monotonic, sleep, while_before, loop_for, poll, outcome,
  wait,
}
use local_peer_connections.Loop.Forward.{
  Ends, elapsed, Forward, Forward-trans, total, Keeps-monotonic, Keeps-sleep,
}

module _ (E : Env) (laws : IsEnv E) where
  abbrev pub Pause : {L : Type 0} → State E → Result (Loop L) → State E → Type 0
  Pause s (ok (more l)) t = elapsed E laws s + min_pause ≤ elapsed E laws t
  Pause s (ok (done l)) t = Unit
  Pause s (err e) t = Unit

  -- A loop body that keeps the contract, and has slept long enough where the loop goes on.
  pub record Paced {L : Type 0} (m : Exec (State E) (Loop L)) : Type 0 where
    pub keeps : Keeps (total E laws) m
    pub pause : (s : State E) → Pause s (m s).0 (m s).1

  module _ {L : Type 0} where
    pub Paced-done : (l : L) → Paced (pure (done l))
    unfolding pure
    Paced-done l = record { keeps = Keeps-pure (done l); pause = λ s. tt }

    pub Paced-more : (d : ℕ) (l : L) → min_pause ≤ d → Paced (sleep E d >> pure (more l))
    unfolding ◌>>=◌ sleep
    Paced-more d l h = record {
      keeps =
          unfold ◌>>=◌ in
          Keeps-bind (sleep E d) _ (Keeps-sleep E laws d) (λ _. Keeps-pure (more l));
      pause = λ s. omega (arith, laws.sleep_le d s.world);
    }

    pub Paced-raise : (e : Error) → Ends e → Paced (raise {A = Loop L} e)
    unfolding raise
    Paced-raise e h = record { keeps = unfold raise in Keeps-raise e h; pause = λ s. tt }

    pub Paced-if :
        (b : Bool) (m n : Exec (State E) (Loop L))
        → (b ≡ true → Paced m)
        → (b ≡ false → Paced n)
        → Paced (if b then m else n)
    Paced-if true m n pm pn = pm refl
    Paced-if false m n pm pn = pn refl

    -- The end of a round that either ends its loop or sleeps.
    pub Paced-turn :
        (d : ℕ) (b : Bool) (l : L)
        → min_pause ≤ d
        → Paced (if b then pure (done l) else (sleep E d >> pure (more l)))
    Paced-turn d b l h = Paced-if b _ _ (λ _. Paced-done l) (λ _. Paced-more d l h)

  module _ {A L : Type 0} where
    continue-Pause :
        (f : A → Exec (State E) (Loop L)) (s t : State E) (r : Result A)
        → elapsed E laws s ≤ elapsed E laws t
        → ((a : A) → Paced (f a))
        → Pause s (continue r f t).0 (continue r f t).1
    continue-Pause f s t (ok a) h k = later ((f a) t).0 ((f a) t).1 ((k a).pause t)
      where
        later : (r : Result (Loop L)) (u : State E) → Pause t r u → Pause s r u
        later (ok (more l)) u p = omega arith
        later (ok (done l)) u p = tt
        later (err e) u p = tt
    continue-Pause f s t (err e) h k = tt

    pub Paced-bind :
        (m : Exec (State E) A) (f : A → Exec (State E) (Loop L))
        → Keeps (total E laws) m
        → ((a : A) → Paced (f a))
        → Paced (m >>= f)
    unfolding ◌>>=◌
    Paced-bind m f k h = record {
      keeps = unfold ◌>>=◌ in Keeps-bind m f k (λ a. (h a).keeps);
      pause = λ s. continue-Pause f s (m s).1 (m s).0 (k.related s).clock h;
    }

  module _ {L : Type 0} (body : L → Exec (State E) (Loop L))
      (paced : (l : L) → Paced (body l)) where
    -- The rounds left reach the deadline.
    abbrev Enough : ℕ → ℕ → State E → Type 0
    Enough fuel deadline s = deadline ≤ elapsed E laws s + min_pause * fuel

    abbrev Safe : State E → Result (Loop L) × State E → Type 0
    Safe s (r, t) = Forward E laws s t × Allowed (total E laws) r

    -- The end of a round, over whatever loop comes next.
    after_turn :
        (next : L → Exec (State E) (Loop L)) (s t : State E) (r : Result (Loop L))
        → Forward E laws s t
        → Allowed (total E laws) r
        → Pause s r t
        → ((l : L) → elapsed E laws s + min_pause ≤ elapsed E laws t → Safe t (next l t))
        → Safe s (continue r (λ turn. elim turn [ done l' ↦ pure (done l') | more l' ↦ next l' ]) t)
    unfolding pure
    after_turn next s t (ok (done l)) le a p h = (le, tt)
    after_turn next s t (ok (more l)) le a p h =
        let (n, b) = h l p in (Forward-trans E laws s t _ le n, b)
    after_turn next s t (err e) le a p h = (le, a)

    while_before-Safe :
        (fuel deadline : ℕ) (l : L) (s : State E)
        → Enough fuel deadline s
        → Safe s (while_before E (suc fuel) deadline body l s)
    unfolding while_before monotonic ◌>>=◌
    while_before-Safe zero deadline l s h = elim (Bool-cases (ltb now deadline)) [
      | inl e ↦ absurd (omega (arith, ltb→lt now deadline e, laws.read_after s.world))
      | inr e ↦ rw e (reading.related s, tt)
    ]
      where
        now : ℕ
        now = (E.monotonic s.world).0

        reading : Keeps (total E laws) (monotonic E)
        reading = Keeps-monotonic E laws
    while_before-Safe (suc fuel) deadline l s h = elim (Bool-cases (ltb now deadline)) [
      | inl e ↦ rw e (
          let k = paced l in
          let (le, a) =
            after_turn (while_before E (suc fuel) deadline body) s' (body l s').1 (body l s').0
              (k.keeps.related s') (k.keeps.allowed s') (k.pause s')
              (λ l' q.
                while_before-Safe fuel deadline l' (body l s').1
                  (omega (arith, q, h, read.clock))) in
          (Forward-trans E laws s s' _ read le, a))
      | inr e ↦ rw e (read, tt)
    ]
      where
        now : ℕ
        now = (E.monotonic s.world).0

        s' : State E
        s' = record s { world = (E.monotonic s.world).1 }

        reading : Keeps (total E laws) (monotonic E)
        reading = Keeps-monotonic E laws

        read : Forward E laws s s'
        read = reading.related s

  module _ {L : Type 0} where
    pub Keeps-loop_for :
        (timeout : ℕ) (body : ℕ → L → Exec (State E) (Loop L)) (l : L)
        → ((deadline : ℕ) (l' : L) → Paced (body deadline l'))
        → Keeps (total E laws) (loop_for E timeout body l)
    unfolding loop_for monotonic ◌>>=◌
    Keeps-loop_for timeout body l paced = record {
      related = λ s. Forward-trans E laws s (started s) _ (reading.related s) (run s).0;
      allowed = λ s. (run s).1;
    }
      where
        end : State E → ℕ
        end s = (E.monotonic s.world).0 + timeout

        started : State E → State E
        started s = record s { world = (E.monotonic s.world).1 }

        reading : Keeps (total E laws) (monotonic E)
        reading = Keeps-monotonic E laws

        run :
            (s : State E)
            → Safe
                (body (end s))
                (paced (end s))
                (started s)
                (while_before E (rounds timeout) (end s) (body (end s)) l (started s))
        run s =
            while_before-Safe (body (end s)) (paced (end s)) (timeout / min_pause + 1) (end s) l
              (started s) (omega (arith, laws.read_before s.world))

    Paced-poll :
        (predicate : L → Exec (State E) (Bool × L)) (l : L)
        → ((l' : L) → Keeps (total E laws) (predicate l'))
        → Paced (poll E predicate l)
    unfolding poll
    Paced-poll predicate l keeps =
        Paced-bind (predicate l) _ (keeps l) λ (held, l').
          Paced-if held _ _ (λ _. Paced-done l') (λ _. Paced-more 250 l' (omega arith))

    end_wait :
        (description : Message) (end : Loop L) → Keeps (total E laws) (outcome E description end)
    end_wait description (done l) = Keeps-pure l
    end_wait description (more l) = Keeps-raise _ tt

    -- A wait ends, whatever its predicate returns, if each call of the predicate ends.
    pub Keeps-wait :
        (predicate : L → Exec (State E) (Bool × L)) (description : Message) (timeout : ℕ) (l : L)
        → ((l' : L) → Keeps (total E laws) (predicate l'))
        → Keeps (total E laws) (wait E predicate description timeout l)
    unfolding wait
    Keeps-wait predicate description timeout l keeps =
        Keeps-bind (loop_for E timeout (λ _. poll E predicate) l) _
          (Keeps-loop_for timeout (λ _. poll E predicate) l (λ _ l'. Paced-poll predicate l' keeps))
          (end_wait description)
