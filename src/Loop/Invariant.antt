-- ===== src/Loop/Invariant.antt =====
-- What the variables of a waiting loop satisfy, if each call of its predicate keeps it.
use local_peer_connections.Prelude.{
  ℕ, zero, suc, ◌+◌, ◌≡◌, subst, Bool, true, false, ltb, if◌then◌else◌,
}
use local_peer_connections.Exec.{Message, diverged, ok, Exec, pure, ◌>>=◌, ◌>>◌}
use local_peer_connections.Exec.Inversion.{bind-ok, pure-ok, raise-ne-ok}
use local_peer_connections.World.{Env, State}
use local_peer_connections.Loop.{
  Loop, done, more, rounds, monotonic, sleep, while_before, loop_for, poll, outcome, wait,
}

-- The variables that a round or a loop leaves.
abbrev left : {L : Type 0} → Loop L → L
left (done l) = l
left (more l) = l

module _ (E : Env) {L : Type 0} (Inv : L → Type 0) where
  module _ (body : L → Exec (State E) (Loop L))
      (step : (l : L) (r : Loop L) (s t : State E)
        → body l s ≡ (ok r, t)
        → Inv l
        → Inv (left r)) where
    while_before-keeps :
        (fuel deadline : ℕ) (l : L) (r : Loop L) (s t : State E)
        → while_before E fuel deadline body l s ≡ (ok r, t)
        → Inv l
        → Inv (left r)
    unfolding while_before
    while_before-keeps zero deadline l r s t h inv = absurd (raise-ne-ok diverged r s t h)
    while_before-keeps (suc fuel) deadline l r s t h inv =
        let (now, u, read, h1) = bind-ok (monotonic E) _ s r t h in
        tested (λ l' v. while_before-keeps fuel deadline l' r v t) (ltb now deadline) u h1
      where
        turned :
            ((l' : L) (v : State E)
              → while_before E fuel deadline body l' v ≡ (ok r, t)
              → Inv l'
              → Inv (left r))
            → (turn : Loop L) (u v : State E) → body l u ≡ (ok turn, v)
            → (elim turn as (λ _. Exec (State E) (Loop L)) [
              | done l' ↦ pure (done l')
              | more l' ↦ while_before E fuel deadline body l'
            ])
                v
              ≡ (ok r, t)
            → Inv (left r)
        turned later (done l') u v ran k =
            subst (λ x. Inv (left x)) (pure-ok (done l') r v t k).0 (step l (done l') u v ran inv)
        turned later (more l') u v ran k = later l' v k (step l (more l') u v ran inv)

        tested :
            ((l' : L) (v : State E)
              → while_before E fuel deadline body l' v ≡ (ok r, t)
              → Inv l'
              → Inv (left r))
            → (b : Bool) (u : State E)
            → (if b
                  then (do
                    turn ← body l
                    elim turn [
                      | done l' ↦ pure (done l')
                      | more l' ↦ while_before E fuel deadline body l'
                    ])
                  else pure (more l))
                u
              ≡ (ok r, t)
            → Inv (left r)
        tested later false u k = subst (λ x. Inv (left x)) (pure-ok (more l) r u t k).0 inv
        tested later true u k =
            let (turn, v, ran, k1) = bind-ok (body l) _ u r t k in turned later turn u v ran k1

  module _ (predicate : L → Exec (State E) (Bool × L))
      (step : (l l' : L) (b : Bool) (s t : State E)
        → predicate l s ≡ (ok (b, l'), t)
        → Inv l
        → Inv l') where
    poll-keeps :
        (l : L) (r : Loop L) (s t : State E)
        → poll E predicate l s ≡ (ok r, t)
        → Inv l
        → Inv (left r)
    unfolding poll
    poll-keeps l r s t h inv =
        let ((held, l'), u, ran, h1) = bind-ok (predicate l) _ s r t h in
        after held l' u h1 (step l l' held s u ran inv)
      where
        after :
            (held : Bool) (l' : L) (u : State E)
            → (if held then pure (done l') else (do sleep E 250; pure (more l'))) u ≡ (ok r, t)
            → Inv l'
            → Inv (left r)
        after true l' u k i = subst (λ x. Inv (left x)) (pure-ok (done l') r u t k).0 i
        after false l' u k i =
            let (x, v, slept, k1) = bind-ok (sleep E 250) _ u r t k in
            subst (λ x. Inv (left x)) (pure-ok (more l') r v t k1).0 i

    pub wait-keeps :
        (description : Message) (timeout : ℕ) (l l' : L) (s t : State E)
        → wait E predicate description timeout l s ≡ (ok l', t)
        → Inv l
        → Inv l'
    unfolding wait loop_for
    wait-keeps description timeout l l' s t h inv =
        let (r, u, looped, h1) =
          bind-ok (loop_for E timeout (λ _. poll E predicate) l) (outcome E description) s l' t h in
        let (now, v, read, h2) = bind-ok (monotonic E) _ s r u looped in
        ended r u h1 (
          while_before-keeps (poll E predicate) poll-keeps (rounds timeout) (now + timeout) l r v u
            h2 inv)
      where
        ended :
            (r : Loop L) (u : State E)
            → outcome E description r u ≡ (ok l', t)
            → Inv (left r)
            → Inv l'
        ended (done x) u k i = subst Inv (pure-ok x l' u t k).0 i
        ended (more x) u k i = absurd (raise-ne-ok _ l' u t k)
