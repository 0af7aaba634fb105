-- ===== src/Loop/Sound.antt =====
-- What a bounded loop has seen when it ends.
use local_peer_connections.Prelude.{
  ℕ, zero, suc, ◌+◌, ◌≤◌, ◌≡◌, ◌≢◌, refl, ap, Bool, true, ◌∷◌, arith, ltb, Bool-cases, ◌⊎◌, inl,
  inr,
}
use local_peer_connections.Exec.{
  text, Message, Error, failure, blocked, builtin, diverged, Result, ok, err, Exec, pure, raise,
  continue, ◌>>=◌,
}
use local_peer_connections.Exec.Contract.{Allowed, Keeps}
use local_peer_connections.World.{Env, IsEnv, State}
use local_peer_connections.Loop.{
  Loop, done, more, rounds, monotonic, sleep, while_before, loop_for, poll, outcome, wait,
}
use local_peer_connections.Loop.Forward.{elapsed, total}
use local_peer_connections.Loop.Total.{Keeps-wait}

-- Some call of `m` ended in this way.
abbrev pub Ran : {S A B : Type 0} → (A → Exec S B) → Result B → S → Type 0
Ran {S} {A} m r t = (a : A) × (s : S) × (m a s ≡ (r, t))

module _ (E : Env) (laws : IsEnv E) where
  abbrev pub Ended :
      {L : Type 0} → (L → Exec (State E) (Loop L)) → ℕ → Result (Loop L) → State E → Type 0
  Ended body deadline (ok (done l)) t = Ran body (ok (done l)) t
  Ended body deadline (ok (more l)) t = deadline ≤ elapsed E laws t
  Ended body deadline (err e) t = (e ≡ diverged) ⊎ Ran body (err e) t

  module _ {L : Type 0} (body : L → Exec (State E) (Loop L)) (deadline : ℕ) where
    turn-Ended :
        (next : L → Exec (State E) (Loop L)) (l : L) (s t : State E) (r : Result (Loop L))
        → body l s ≡ (r, t)
        → ((l' : L) → Ended body deadline (next l' t).0 (next l' t).1)
        → let m : Exec (State E) (Loop L) =
            continue r (λ turn. elim turn [ done l' ↦ pure (done l') | more l' ↦ next l' ]) in
          Ended body deadline (m t).0 (m t).1
    unfolding pure
    turn-Ended next l s t (ok (done l')) e h = (l, s, e)
    turn-Ended next l s t (ok (more l')) e h = h l'
    turn-Ended next l s t (err x) e h = inr (l, s, e)

    pub while_before-Ended :
        (fuel : ℕ) (l : L) (s : State E)
        → let r = while_before E fuel deadline body l s in Ended body deadline r.0 r.1
    unfolding while_before monotonic ◌>>=◌
    while_before-Ended zero l s = inl refl
    while_before-Ended (suc fuel) l s = elim (Bool-cases (ltb (E.monotonic s.world).0 deadline)) [
      | inl e ↦ rw e (
          let s' : State E = record s { world = (E.monotonic s.world).1 } in
          turn-Ended (while_before E fuel deadline body) l s' (body l s').1 (body l s').0 refl
            (λ l'. while_before-Ended fuel l' (body l s').1))
      | inr e ↦ rw e (ground (arith, laws.read_before s.world))
    ]

  module _ {L : Type 0} (predicate : L → Exec (State E) (Bool × L)) where
    poll-done :
        (l l' : L) (s t : State E)
        → poll E predicate l s ≡ (ok (done l'), t)
        → predicate l s ≡ (ok (true, l'), t)
    unfolding poll ◌>>=◌ sleep
    poll-done l l' s t h = ground arith

    poll-err :
        (l : L) (s t : State E) (e : Error)
        → poll E predicate l s ≡ (err e, t)
        → predicate l s ≡ (err e, t)
    unfolding poll ◌>>=◌ sleep
    poll-err l s t e h = ground arith

    -- How `wait` may end, from `s`.
    abbrev pub WaitEnds : Message → ℕ → State E → Result L → State E → Type 0
    WaitEnds description timeout s (ok l) t = Ran predicate (ok (true, l)) t
    WaitEnds description timeout s (err e) t =
        Ran predicate (err e) t
        ⊎ ((e ≡ failure (text "timeout waiting for " ∷ description))
            × (elapsed E laws s + timeout ≤ elapsed E laws t))

    outcome_ends :
        (description : Message) (timeout deadline : ℕ) (s t : State E) (r : Result (Loop L))
        → elapsed E laws s + timeout ≤ deadline
        → Ended (poll E predicate) deadline r t
        → let m : Exec (State E) L = continue r (outcome E description) in
          (m t).0 ≢ err diverged → WaitEnds description timeout s (m t).0 (m t).1
    unfolding pure raise
    outcome_ends description timeout deadline s t (ok (done l)) le (l0, s0, e) d =
        (l0, s0, poll-done l0 l s0 t e)
    outcome_ends description timeout deadline s t (ok (more l)) le h d = inr (refl, omega arith)
    outcome_ends description timeout deadline s t (err e) le (inl h) d = absurd (d (ap err h))
    outcome_ends description timeout deadline s t (err e) le (inr (l0, s0, h)) d =
        inl (l0, s0, poll-err l0 s0 t e h)

    Allowed-ne_diverged : (r : Result L) → Allowed (total E laws) r → r ≢ err diverged
    Allowed-ne_diverged (ok l) h e = cc
    Allowed-ne_diverged (err diverged) h e = absurd h
    Allowed-ne_diverged (err (failure m)) h e = cc
    Allowed-ne_diverged (err (blocked m)) h e = cc
    Allowed-ne_diverged (err (builtin b)) h e = cc

    ends_of_ne_diverged :
        (description : Message) (timeout : ℕ) (l : L) (s : State E)
        → (wait E predicate description timeout l s).0 ≢ err diverged
        → WaitEnds description timeout s
            (wait E predicate description timeout l s).0
            (wait E predicate description timeout l s).1
    unfolding wait loop_for monotonic ◌>>=◌
    ends_of_ne_diverged description timeout l s d =
        outcome_ends description timeout end s (loop started).1 (loop started).0
          (omega (arith, laws.read_after s.world))
          (while_before-Ended (poll E predicate) end (rounds timeout) l started) d
      where
        end : ℕ
        end = (E.monotonic s.world).0 + timeout

        started : State E
        started = record s { world = (E.monotonic s.world).1 }

        loop : Exec (State E) (Loop L)
        loop = while_before E (rounds timeout) end (poll E predicate) l

    -- If each call of the predicate ends, `wait` ends in one of three ways: it returns from a call
    -- of the predicate that held, in the state which that call left; it passes on the error of such
    -- a call; or it raises the timeout failure, at least `timeout` after it began.
    pub wait_ends :
        ((l : L) → Keeps (total E laws) (predicate l))
        → (description : Message) (timeout : ℕ) (l : L) (s : State E)
        → WaitEnds description timeout s
            (wait E predicate description timeout l s).0
            (wait E predicate description timeout l s).1
    wait_ends keeps description timeout l s = ends_of_ne_diverged description timeout l s (
        Allowed-ne_diverged _ ((Keeps-wait E laws predicate description timeout l keeps).allowed s))
