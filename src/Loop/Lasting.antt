-- ===== src/Loop/Lasting.antt =====
-- A loop against a deadline that no round ends lasts until its deadline.
use local_peer_connections.Prelude.{ℕ, ◌+◌, ◌≤◌, ◌≡◌, arith, subst}
use local_peer_connections.Exec.{Result, ok, Exec, ◌>>=◌}
use local_peer_connections.World.{Env, IsEnv, State}
use local_peer_connections.Loop.{Loop, done, more, rounds, monotonic, loop_for}
use local_peer_connections.Loop.Forward.{elapsed}
use local_peer_connections.Loop.Sound.{Ended, while_before-Ended}

module _ (E : Env) (laws : IsEnv E) {L : Type 0} where
  -- No round breaks out of the loop or returns.
  abbrev pub GoesOn : (L → Exec (State E) (Loop L)) → Type 0
  GoesOn body = (l l' : L) (s t : State E) → body l s ≡ (ok (done l'), t) → ⊥

  lasts :
      (body : L → Exec (State E) (Loop L)) (deadline : ℕ) (end : Loop L) (t : State E)
      → GoesOn body
      → Ended E laws body deadline (ok end) t
      → deadline ≤ elapsed E laws t
  lasts body deadline (done l) t goes_on (l0, s0, e) = absurd (goes_on l0 l s0 t e)
  lasts body deadline (more l) t goes_on h = h

  pub loop_for_lasts :
      (timeout : ℕ) (body : ℕ → L → Exec (State E) (Loop L)) (l : L) (end : Loop L) (s t : State E)
      → ((deadline : ℕ) → GoesOn (body deadline))
      → loop_for E timeout body l s ≡ (ok end, t)
      → elapsed E laws s + timeout ≤ elapsed E laws t
  unfolding loop_for monotonic ◌>>=◌
  loop_for_lasts timeout body l end s t goes_on h =
      let deadline = (E.monotonic s.world).0 + timeout in
      let started : State E = record s { world = (E.monotonic s.world).1 } in
      let ended = while_before-Ended E laws (body deadline) deadline (rounds timeout) l started in
      let at_end =
        subst (λ (q : Result (Loop L) × State E). Ended E laws (body deadline) deadline q.0 q.1) h
          ended in
      omega (
        arith,
        lasts (body deadline) deadline end t (goes_on deadline) at_end,
        laws.read_after s.world,
      )
