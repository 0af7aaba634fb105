-- ===== src/Api/Polled.antt =====
-- What a poll of a `DeviceApi` sends, and the cursor that it leaves.
use local_peer_connections.Prelude.{
  ℕ, String, ◌<>◌, ◌≡◌, refl, sym, ◌∙◌, ap, subst, false, none, List, All, ◌==◌, arith,
}
use local_peer_connections.Prelude.Int.{ℤ, ◌≤ℤ◌}
use local_peer_connections.Python.Value.{Value, Fields}
use local_peer_connections.Python.Text.{show_int}
use local_peer_connections.Exec.{ok, pure, raise, lift, or_raise}
use local_peer_connections.Exec.Inversion.{bind-ok, pure-ok, lift-ok, or_raise-ok}
use local_peer_connections.World.{Reply, response, unavailable, garbled, Env, State}
use local_peer_connections.Api.{
  Api, request_to, advance_all, dicts, set_cursor, urlopen, read_reply, request, get_cursor,
  consume, events,
}
use local_peer_connections.Api.Cursor.{
  sequence, Within, Within-advance_all, le-advance_all, Reached, Reached-advance_all,
}

module _ (E : Env) where
  read_reply-still :
      (api : Api) (reply : Reply) (v : Value) (s t : State E)
      → read_reply E api reply s ≡ (ok v, t)
      → s ≡ t
  unfolding read_reply pure raise
  read_reply-still api (response w) v s t h = cc
  read_reply-still api (unavailable fault error) v s t h = cc
  read_reply-still api garbled v s t h = cc

  -- The world after a request to a device, with the timeout of its `DeviceApi`.
  abbrev asked : Api → String → State E → State E
  asked api path s = record s {
    world = (E.urlopen (request_to api "GET" path none) api.timeout s.world).1;
  }

  request-asked :
      (api : Api) (path : String) (v : Value) (s t : State E)
      → request E api "GET" path none none s ≡ (ok v, t)
      → t ≡ asked api path s
  unfolding request urlopen
  request-asked api path v s t h =
      let (reply, u, opened, h1) = bind-ok (urlopen E _ _) _ s v t h in
      sym (read_reply-still api reply v u t h1) ∙ sym (ap (λ x. x.1) opened)

  -- A poll from `s` to `t`. It has asked once, for the events after the cursor that it found. The
  -- cursor that it leaves is not below that one, has passed every event that it hands on, and is that
  -- one or the sequence number of such an event. No other cursor is changed.
  pub record Polled (api : Api) (polled : List Fields) (s t : State E) : Type 0 where
    pub sent :
        t.world
        ≡ (E.urlopen
            (request_to api "GET" ("/events?after=" <> show_int (s.cursor api.index)) none)
            api.timeout
            s.world).1
    pub forward : s.cursor api.index ≤ℤ t.cursor api.index
    pub passed : All (λ e. Within (t.cursor api.index) (sequence e)) polled
    pub reached : Reached (s.cursor api.index) (t.cursor api.index) polled
    pub others : (j : ℕ) → (j == api.index) ≡ false → t.cursor j ≡ s.cursor j

  set_cursor-same : (i : ℕ) (c : ℤ) (cursor : ℕ → ℤ) → set_cursor i c cursor i ≡ c
  unfolding set_cursor
  set_cursor-same i c cursor = ground arith

  set_cursor-other :
      (i j : ℕ) (c : ℤ) (cursor : ℕ → ℤ) → (j == i) ≡ false → set_cursor i c cursor j ≡ cursor j
  unfolding set_cursor
  set_cursor-other i j c cursor h = rw h refl

  moved-Polled :
      (api : Api) (vs : List Value) (s : State E)
      → let u = asked api ("/events?after=" <> show_int (s.cursor api.index)) s in
        Polled api (dicts vs) s (consume E api vs u).1
  unfolding consume
  moved-Polled api vs s =
      let c = s.cursor api.index in
      let here = set_cursor-same api.index (advance_all c vs) s.cursor in
      record {
        sent = refl;
        forward = subst (λ d. c ≤ℤ d) (sym here) (le-advance_all c vs);
        passed =
            subst (λ d. All (λ e. Within d (sequence e)) (dicts vs)) (sym here)
              (Within-advance_all c vs);
        reached = subst (λ d. Reached c d (dicts vs)) (sym here) (Reached-advance_all c vs);
        others = λ j. set_cursor-other api.index j (advance_all c vs) s.cursor;
      }

  -- If `events` returns, then it has asked the device once, for the events after the cursor of its
  -- `DeviceApi`. The cursor that it leaves there is not below the old one, has passed every event
  -- handed on that has an integer sequence, and is the old one or the sequence of an event handed on.
  -- The cursors of the other devices are as they were.
  pub events-Polled :
      (api : Api) (polled : List Fields) (s t : State E)
      → events E api s ≡ (ok polled, t)
      → Polled api polled s t
  unfolding events get_cursor
  events-Polled api polled s t h =
      let (c, u0, got, h1) = bind-ok (get_cursor E api) _ s polled t h in
      let (value, u1, asking, h2) = bind-ok (request E api "GET" _ none none) _ u0 polled t h1 in
      let (found, u2, there, h3) = bind-ok (lift _) _ u1 polled t h2 in
      let (listed, u3, is_list, h4) = bind-ok (or_raise _ _) _ u2 polled t h3 in
      let (x, u4, moved, h5) = bind-ok (consume E api listed) _ u3 polled t h4 in
      let (handed, last) = pure-ok (dicts listed) polled u4 t h5 in
      let path : String → State E = λ p. asked api p s in
      let first : s ≡ u0 = ap (λ x. x.1) got in
      let at : u3 ≡ asked api ("/events?after=" <> show_int (s.cursor api.index)) s =
        sym (or_raise-ok _ _ listed u2 u3 is_list).1
        ∙ sym (lift-ok _ found u1 u2 there).1
        ∙ request-asked api _ value u0 u1 asking
        ∙ cc in
      subst (λ v. Polled api polled s v)
        (sym (ap (λ v. (consume E api listed v).1) at) ∙ ap (λ x. x.1) moved ∙ last)
        (subst
          (λ es.
            Polled api es s
              (consume E api listed
                (asked api ("/events?after=" <> show_int (s.cursor api.index)) s)).1)
          handed (moved-Polled api listed s))
