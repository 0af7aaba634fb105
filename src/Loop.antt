-- ===== src/Loop.antt =====
-- The loops `while time.monotonic() < deadline` of the runner, `Runner.wait` among them.
pub mod Forward
pub mod Total
pub mod Sound
pub mod Lasting
pub mod Invariant
use Prim.Native.Nat.{min, max}
use local_peer_connections.Prelude.{
  ℕ, zero, suc, ◌+◌, ◌-◌, ◌/◌, Bool, true, false, ◌∷◌, ltb, if◌then◌else◌,
}
use local_peer_connections.Exec.{
  text, Message, failure, diverged, ok, Exec, pure, raise, ◌>>=◌, ◌>>◌,
}
use local_peer_connections.World.{Env, State}

-- How one round ends: by `break` or `return`, or by falling through to the next test. With it come
-- the local variables that the loop changes. A loop that its test ends comes back with `more`.
pub data Loop (L : Type 0) : Type 0 where
  done : L → Loop L
  more : L → Loop L

-- Every round that does not end its loop sleeps for 0.05 seconds at least.
abbrev pub min_pause : ℕ
min_pause = 50

abbrev pub rounds : ℕ → ℕ
rounds timeout = suc (timeout / min_pause + 1)

-- `min(longest, max(0.05, deadline - time.monotonic()))`
abbrev pub pause_before : ℕ → ℕ → ℕ → ℕ
pause_before longest deadline now = min longest (max min_pause (deadline - now))

module _ (E : Env) where
  unfoldable pub monotonic : Exec (State E) ℕ
  monotonic s = let (t, w) = E.monotonic s.world in (ok t, record s { world = w })

  unfoldable pub sleep : ℕ → Exec (State E) Unit
  sleep d s = (ok tt, record s { world = E.sleep d s.world })

  module _ {L : Type 0} where
    unfoldable pub while_before :
        ℕ → ℕ → (L → Exec (State E) (Loop L)) → L → Exec (State E) (Loop L)
    while_before zero deadline body l = raise diverged
    while_before (suc fuel) deadline body l = do
      now ← monotonic
      if ltb now deadline
          then (do
            turn ← body l
            elim turn [ done l' ↦ pure (done l') | more l' ↦ while_before fuel deadline body l' ])
          else pure (more l)

    -- `deadline = time.monotonic() + timeout`, and the loop; its body is given the deadline.
    unfoldable pub loop_for : ℕ → (ℕ → L → Exec (State E) (Loop L)) → L → Exec (State E) (Loop L)
    loop_for timeout body l = do
      start ← monotonic
      while_before (rounds timeout) (start + timeout) (body (start + timeout)) l

    -- One round of `Runner.wait`: the predicate, and a quarter of a second.
    unfoldable pub poll : (L → Exec (State E) (Bool × L)) → L → Exec (State E) (Loop L)
    poll predicate l = do
      (held, l') ← predicate l
      if held then pure (done l') else (do sleep 250; pure (more l'))

    abbrev pub outcome : Message → Loop L → Exec (State E) L
    outcome description (done l) = pure l
    outcome description (more l) = raise (failure (text "timeout waiting for " ∷ description))

    -- `Runner.wait`; `l` holds the variables that the predicate's closure assigns.
    unfoldable pub wait : (L → Exec (State E) (Bool × L)) → Message → ℕ → L → Exec (State E) L
    wait predicate description timeout l = do
      end ← loop_for timeout (λ _. poll predicate) l
      outcome description end
