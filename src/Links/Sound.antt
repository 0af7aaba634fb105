-- ===== src/Links/Sound.antt =====
-- What `_assert_selected_connections_ready` has seen when it returns.
use local_peer_connections.Prelude.{
  String, ◌≡◌, ap, ◌∙◌, Bool, true, false, ◌&&◌, List, [], ◌∷◌, length, all, All, ◌==◌, ==_iff,
  arith,
}
use local_peer_connections.Python.Value.{Value, Fields}
use local_peer_connections.Exec.{Message, ok, lift, for_each}
use local_peer_connections.Exec.Inversion.{bind-ok, lift-ok, raise_if-ok, and_then-ok}
use local_peer_connections.Exec.Each.{Chain, Chain-map, Chain-still, for_each-ok, raise_unless-ok}
use local_peer_connections.World.{Env, State}
use local_peer_connections.Api.{Api, label, snapshot, events}
use local_peer_connections.Runner.{Runner, walk}
use local_peer_connections.Peers.{connections}
use local_peer_connections.Links.{
  peers_of, is_unstable, relevant, is_ready, links_ready, selected_peers, check_stable, check_links,
  assert_links,
}

-- The connections to the expected peers are as many as these, and all of them are ready.
pub record Linked (expected : List String) (listed : Value) : Type 0 where
  pub members : List Value
  pub found : List Fields
  pub walked : walk listed ≡ ok members
  pub selected : relevant expected members ≡ ok found
  pub enough : length found ≡ length expected
  pub ready : All (λ c. is_ready c ≡ true) found

all-All : {A : Type 0} (p : A → Bool) (l : List A) → all p l ≡ true → All (λ a. p a ≡ true) l
all-All p [] h = tt
all-All p (a ∷ l) h = (ground arith, all-All p l (ground arith))

links_ready-Linked :
    (expected : List String) (listed : Value)
    → links_ready expected listed ≡ ok true
    → Linked expected listed
unfolding links_ready
links_ready-Linked expected listed h =
    let (members, walked, h1) = and_then-ok (walk listed) _ true h in
    let (found, selected, h2) = and_then-ok (relevant expected members) _ true h1 in
    let both : (length found == length expected) && all is_ready found ≡ true = cc in
    record {
      members = members;
      found = found;
      walked = walked;
      selected = selected;
      enough = (==_iff _ _).0 (ground arith);
      ready = all-All is_ready found (ground arith);
    }

module _ (E : Env) where
  -- From `s` to `t`, a poll and a snapshot of the device have shown no event of an unstable link to
  -- an expected peer, and every expected link ready.
  pub record Checked (peers : List (String × String)) (api : Api) (s t : State E) : Type 0 where
    pub polled : List Fields
    pub polled_at : State E
    pub shot : Fields
    pub poll : events E api s ≡ (ok polled, polled_at)
    pub taken : snapshot E api polled_at ≡ (ok shot, t)
    pub calm : All (λ event. is_unstable (peers_of (label api) peers) event ≡ ok false) polled
    pub linked : Linked (peers_of (label api) peers) (connections shot)

  check_stable-ok :
      (complaint : Message) (expected : List String) (event : Fields) (s t : State E)
      → check_stable E complaint expected event s ≡ (ok tt, t)
      → (is_unstable expected event ≡ ok false) × (s ≡ t)
  unfolding check_stable
  check_stable-ok complaint expected event s t h =
      let (unstable, u, judged, h1) = bind-ok (lift (is_unstable expected event)) _ s tt t h in
      let (e, p) = raise_if-ok unstable _ tt u t h1 in
      let (e', q) = lift-ok _ unstable s u judged in (e' ∙ ap ok e, q ∙ p)

  check_links-Checked :
      (scenario : String) (phase : Message) (peers : List (String × String)) (api : Api)
      (s t : State E)
      → check_links E scenario phase peers api s ≡ (ok tt, t)
      → Checked peers api s t
  unfolding check_links
  check_links-Checked scenario phase peers api s t h =
      let (polled, u, poll, h1) = bind-ok (events E api) _ s tt t h in
      let (x, v, stable, h2) = bind-ok (for_each (check_stable E _ _) polled) _ u tt t h1 in
      let (d, w, shot, h3) = bind-ok (snapshot E api) _ v tt t h2 in
      let (ready, w1, judged, h4) = bind-ok (lift (links_ready _ _)) _ w tt t h3 in
      let (e, p) = raise_unless-ok ready _ tt w1 t h4 in
      let (e', q) = lift-ok _ ready w w1 judged in
      let (calm, still) =
        Chain-still (λ event. is_unstable _ event ≡ ok false) polled u v
          (Chain-map (check_stable-ok _ _) polled u v (for_each-ok _ polled x u v stable)) in
      record {
        polled = polled;
        polled_at = u;
        shot = d;
        poll = poll;
        taken = ap (snapshot E api) still ∙ shot ∙ ap (λ (z : State E). (ok d, z)) (q ∙ p);
        calm = calm;
        linked = links_ready-Linked _ _ (e' ∙ ap ok e);
      }

  -- If the check of the selected links returns, then each device has reported its peer id, and then
  -- each in turn has shown, in a poll and a snapshot, no event of an unstable link to an expected
  -- peer, and as many connections to expected peers as there are expected peers, all of them ready.
  pub assert_links-Checked :
      (runner : Runner) (scenario : String) (phase : Message) (x : Unit {0}) (s t : State E)
      → assert_links E runner scenario phase s ≡ (ok x, t)
      → (peers : List (String × String)) × (u : State E) × (selected_peers E runner s
          ≡ (ok peers, u))
        × Chain (Checked peers) runner.apis u t
  unfolding assert_links
  assert_links-Checked runner scenario phase x s t h =
      let (peers, u, selected, h1) = bind-ok (selected_peers E runner) _ s x t h in
      let each = for_each-ok (check_links E scenario phase peers) runner.apis x u t h1 in
      (
        peers,
        u,
        selected,
        Chain-map (check_links-Checked scenario phase peers) runner.apis u t each,
      )
