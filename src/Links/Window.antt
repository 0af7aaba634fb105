-- ===== src/Links/Window.antt =====
-- A stability window that passes has lasted as long as it says.
use local_peer_connections.Prelude.{ℕ, ◌+◌, ◌*◌, ◌≤◌, String, ◌≡◌, [], ◌∷◌}
use local_peer_connections.Exec.{text, ok, Exec}
use local_peer_connections.Exec.Inversion.{bind-ok, pure-ok}
use local_peer_connections.World.{Env, IsEnv, State}
use local_peer_connections.Loop.{done, more, monotonic, sleep, loop_for}
use local_peer_connections.Loop.Forward.{elapsed}
use local_peer_connections.Loop.Lasting.{GoesOn, loop_for_lasts}
use local_peer_connections.Runner.{Runner}
use local_peer_connections.Links.{assert_links, watch_round, watch, stability_window}

module _ (E : Env) (laws : IsEnv E) where
  watch_round-GoesOn :
      (longest : ℕ) (check : Exec (State E) (Unit {0})) (deadline : ℕ)
      → GoesOn E laws (watch_round E longest check deadline)
  unfolding watch_round
  watch_round-GoesOn longest check deadline l l' s t h =
      let (x, u, checked, h1) = bind-ok check _ s (done l') t h in
      let (now, v, read, h2) = bind-ok (monotonic E) _ u (done l') t h1 in
      let (y, w, slept, h3) = bind-ok (sleep E _) _ v (done l') t h2 in
      let (e, _) = pure-ok (more tt) (done l') w t h3 in cc

  watch_lasts :
      (longest duration : ℕ) (check : Exec (State E) (Unit {0})) (x : Unit {0}) (s t : State E)
      → watch E longest duration check s ≡ (ok x, t)
      → elapsed E laws s + duration ≤ elapsed E laws t
  unfolding watch
  watch_lasts longest duration check x s t h =
      let (end, u, ran, h1) =
        bind-ok (loop_for E duration (watch_round E longest check) tt) _ s x t h in
      let (_, e) = pure-ok tt x u t h1 in
      let le =
        loop_for_lasts E laws duration (watch_round E longest check) tt end s u
          (watch_round-GoesOn longest check) ran in
      rw (← e) le

  -- In a lawful environment, a stability window that returns has lasted its number of seconds.
  pub stability_window_lasts :
      (runner : Runner) (scenario : String) (seconds : ℕ) (x : Unit {0}) (s t : State E)
      → stability_window E runner scenario seconds s ≡ (ok x, t)
      → elapsed E laws s + seconds * 1000 ≤ elapsed E laws t
  unfolding stability_window
  stability_window_lasts runner scenario seconds x s t h =
      watch_lasts 500 (seconds * 1000)
        (assert_links E runner scenario (text "post-drain-stability" ∷ [])) x s t h
