-- ===== src/Exec/Each.antt =====
-- From the end of a loop over a list back to its rounds.
use local_peer_connections.Prelude.{
  ◌≡◌, refl, ap, ◌∙◌, Bool, true, false, List, [], ◌∷◌, All, if◌then◌else◌,
}
use local_peer_connections.Exec.{Error, ok, Exec, pure, raise, raise_unless, for_each, all_of}
use local_peer_connections.Exec.Inversion.{bind-ok, pure-ok}

-- The elements in turn, each from the state that the one before it has left.
abbrev pub Chain : {S A : Type 0} → (A → S → S → Type 0) → List A → S → S → Type 0
Chain P [] s t = s ≡ t
Chain {S} P (a ∷ l) s t = (u : S) × P a s u × Chain P l u t

pub Chain-map :
    {S A : Type 0} {P Q : A → S → S → Type 0}
    → ((a : A) (s t : S) → P a s t → Q a s t)
    → (l : List A) (s t : S) → Chain P l s t
    → Chain Q l s t
Chain-map f [] s t h = h
Chain-map f (a ∷ l) s t (u, p, h) = (u, f a s u p, Chain-map f l u t h)

-- Where no element changes the state.
pub Chain-still :
    {S A : Type 0} (P : A → Type 0) (l : List A) (s t : S)
    → Chain (λ a u v. P a × (u ≡ v)) l s t
    → All P l × (s ≡ t)
Chain-still P [] s t h = (tt, h)
Chain-still P (a ∷ l) s t (u, (p, e), h) =
    let (later, q) = Chain-still P l u t h in ((p, later), e ∙ q)

module _ {S : Type 0} where
  -- `b and m`
  pub guard-true :
      (b : Bool) (m : Exec S Bool) (s t : S)
      → (if b then m else pure false) s ≡ (ok true, t)
      → (b ≡ true) × (m s ≡ (ok true, t))
  unfolding pure
  guard-true true m s t h = (refl, h)
  guard-true false m s t h = cc

module _ {S A : Type 0} where
  pub for_each-ok :
      (m : A → Exec S (Unit {0})) (l : List A) (x : Unit {0}) (s t : S)
      → for_each m l s ≡ (ok x, t)
      → Chain (λ a u v. m a u ≡ (ok tt, v)) l s t
  unfolding for_each
  for_each-ok m [] x s t h = (pure-ok tt x s t h).1
  for_each-ok m (a ∷ l) x s t h =
      let (y, u, ran, rest) = bind-ok (m a) _ s x t h in (u, ran, for_each-ok m l x u t rest)

  pub all_of-true :
      (m : A → Exec S Bool) (l : List A) (s t : S)
      → all_of m l s ≡ (ok true, t)
      → Chain (λ a u v. m a u ≡ (ok true, v)) l s t
  unfolding all_of
  all_of-true m [] s t h = (pure-ok true true s t h).1
  all_of-true m (a ∷ l) s t h =
      let (held, u, ran, rest) = bind-ok (m a) _ s true t h in
      let (e, later) = guard-true held (all_of m l) u t rest in
      (u, ran ∙ ap (λ b. (ok b, u)) e, all_of-true m l u t later)

module _ {S : Type 0} where
  pub raise_unless-ok :
      (b : Bool) (e : Error) (u : Unit {0}) (s t : S)
      → raise_unless b e s ≡ (ok u, t)
      → (b ≡ true) × (s ≡ t)
  unfolding raise_unless pure raise
  raise_unless-ok true e u s t h = (refl, cc)
  raise_unless-ok false e u s t h = cc
