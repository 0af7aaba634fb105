-- ===== src/Exec/Inversion.antt =====
-- From the end of a run back to the steps that it made.
use local_peer_connections.Prelude.{
  ◌≡◌, refl, ◌∙◌, Bool, true, false, Option, none, some, ◌⊎◌, inl, inr,
}
use local_peer_connections.Exec.{
  Message, Error, failure, blocked, builtin, diverged, Result, ok, err, Exec, pure, raise, lift,
  catch, recover, continue, ◌>>=◌, or_raise, raise_if, and_then, ok_or,
}

pub and_then-ok :
    {A B : Type 0} (r : Result A) (f : A → Result B) (b : B)
    → and_then r f ≡ ok b
    → (a : A) × (r ≡ ok a) × (f a ≡ ok b)
unfolding and_then
and_then-ok (ok a) f b h = (a, refl, h)
and_then-ok (err e) f b h = cc

pub ok_or-ok : {A : Type 0} (o : Option A) (e : Error) (a : A) → ok_or o e ≡ ok a → o ≡ some a
unfolding ok_or
ok_or-ok (some a) e b h = cc
ok_or-ok none e b h = cc

module _ {S A B : Type 0} where
  continue-ok :
      (f : A → Exec S B) (r : Result A) (u : S) (b : B) (t : S)
      → continue r f u ≡ (ok b, t)
      → (a : A) × (r ≡ ok a) × (f a u ≡ (ok b, t))
  continue-ok f (ok a) u b t h = (a, refl, h)
  continue-ok f (err e) u b t h = cc

  continue-err :
      (f : A → Exec S B) (r : Result A) (u : S) (e : Error) (t : S)
      → continue r f u ≡ (err e, t)
      → ((r ≡ err e) × (u ≡ t)) ⊎ ((a : A) × (r ≡ ok a) × (f a u ≡ (err e, t)))
  continue-err f (ok a) u e t h = inr (a, refl, h)
  continue-err f (err x) u e t h = inl (cc, cc)

  pub bind-ok :
      (m : Exec S A) (f : A → Exec S B) (s : S) (b : B) (t : S)
      → (m >>= f) s ≡ (ok b, t)
      → (a : A) × (u : S) × (m s ≡ (ok a, u)) × (f a u ≡ (ok b, t))
  unfolding ◌>>=◌
  bind-ok m f s b t h =
      let (a, e, k) = continue-ok f (m s).0 (m s).1 b t h in (a, (m s).1, λ i. (e i, (m s).1), k)

  pub bind-err :
      (m : Exec S A) (f : A → Exec S B) (s : S) (e : Error) (t : S)
      → (m >>= f) s ≡ (err e, t)
      → (m s ≡ (err e, t)) ⊎ ((a : A) × (u : S) × (m s ≡ (ok a, u)) × (f a u ≡ (err e, t)))
  unfolding ◌>>=◌
  bind-err m f s e t h = elim (continue-err f (m s).0 (m s).1 e t h) [
    | inl (p, q) ↦ inl (λ i. (p i, q i))
    | inr (a, p, k) ↦ inr (a, (m s).1, λ i. (p i, (m s).1), k)
  ]

module _ {S A : Type 0} where
  pub pure-ok : (a b : A) (s t : S) → pure a s ≡ (ok b, t) → (a ≡ b) × (s ≡ t)
  unfolding pure
  pure-ok a b s t h = (cc, cc)

  pub raise-ne-ok : (e : Error) (a : A) (s t : S) → raise e s ≡ (ok a, t) → ⊥
  unfolding raise
  raise-ne-ok e a s t h = cc

  pub raise-err : (e x : Error) (s t : S) → raise {A = A} e s ≡ (err x, t) → (e ≡ x) × (s ≡ t)
  unfolding raise
  raise-err e x s t h = (cc, cc)

  pub lift-ok : (r : Result A) (b : A) (s t : S) → lift r s ≡ (ok b, t) → (r ≡ ok b) × (s ≡ t)
  unfolding lift
  lift-ok r b s t h = (cc, cc)

  pub lift-err :
      (r : Result A) (e : Error) (s t : S) → lift r s ≡ (err e, t) → (r ≡ err e) × (s ≡ t)
  unfolding lift
  lift-err r e s t h = (cc, cc)

  pub or_raise-ok :
      (o : Option A) (e : Error) (b : A) (s t : S)
      → or_raise o e s ≡ (ok b, t)
      → (o ≡ some b) × (s ≡ t)
  unfolding or_raise pure raise
  or_raise-ok none e b s t h = cc
  or_raise-ok (some a) e b s t h = (cc, cc)

  pub or_raise-err :
      (o : Option A) (e x : Error) (s t : S)
      → or_raise o e s ≡ (err x, t)
      → (o ≡ none) × (e ≡ x) × (s ≡ t)
  unfolding or_raise pure raise
  or_raise-err none e x s t h = (refl, cc, cc)
  or_raise-err (some a) e x s t h = cc

  pub catch-ok :
      (m : Exec S A) (handler : Error → Exec S A) (a : A) (s t : S)
      → catch m handler s ≡ (ok a, t)
      → (m s ≡ (ok a, t)) ⊎ ((e : Error) × (u : S) × (handler e u ≡ (ok a, t)))
  unfolding catch
  catch-ok m handler a s t h = ended (m s).0 (m s).1 refl refl h
    where
      ended :
          (r : Result A) (u : S)
          → (m s).0 ≡ r
          → (m s).1 ≡ u
          → recover handler r u ≡ (ok a, t)
          → (m s ≡ (ok a, t)) ⊎ ((e : Error) × (v : S) × (handler e v ≡ (ok a, t)))
      ended (ok b) u p q k = inl ((λ i. (p i, q i)) ∙ k)
      ended (err (failure x)) u p q k = inr (failure x, u, k)
      ended (err (blocked x)) u p q k = inr (blocked x, u, k)
      ended (err (builtin x)) u p q k = cc
      ended (err diverged) u p q k = cc

  -- A failure comes from the handler, or is the handler's own.
  pub catch-failure :
      (m : Exec S A) (handler : Error → Exec S A) (x : Message) (s t : S)
      → catch m handler s ≡ (err (failure x), t)
      → (e : Error) × (u : S) × (m s ≡ (err e, u)) × (handler e u ≡ (err (failure x), t))
  unfolding catch
  catch-failure m handler x s t h = ended (m s).0 (m s).1 refl refl h
    where
      ended :
          (r : Result A) (u : S)
          → (m s).0 ≡ r
          → (m s).1 ≡ u
          → recover handler r u ≡ (err (failure x), t)
          → (e : Error) × (v : S) × (m s ≡ (err e, v)) × (handler e v ≡ (err (failure x), t))
      ended (ok b) u p q k = cc
      ended (err (failure y)) u p q k = (failure y, u, λ i. (p i, q i), k)
      ended (err (blocked y)) u p q k = (blocked y, u, λ i. (p i, q i), k)
      ended (err (builtin y)) u p q k = cc
      ended (err diverged) u p q k = cc

module _ {S : Type 0} where
  pub raise_if-ok :
      (b : Bool) (e : Error) (u : Unit {0}) (s t : S)
      → raise_if b e s ≡ (ok u, t)
      → (b ≡ false) × (s ≡ t)
  unfolding raise_if pure raise
  raise_if-ok true e u s t h = cc
  raise_if-ok false e u s t h = (refl, cc)
