-- ===== src/Exec/Contract.antt =====
-- What every run of an action keeps: a relation between the states before and after it, and a
-- predicate on the errors that it may raise. One rule for each way to build an action.
use local_peer_connections.Prelude.{
  ◌≡◌, refl, Bool, true, false, Option, none, some, List, [], ◌∷◌, if◌then◌else◌,
}
use local_peer_connections.Exec.{
  Error, failure, blocked, builtin, diverged, Result, ok, err, Exec, pure, raise, lift, recover,
  catch, continue, ◌>>=◌, raise_unless, raise_if, or_raise, for_each, fold, map_each, all_of,
}

pub record Contract (S : Type 0) : Type 1 where
  pub rel : S → S → Type 0
  pub rel_refl : (s : S) → rel s s
  pub rel_trans : (s t u : S) → rel s t → rel t u → rel s u
  pub allows : Error → Type 0

abbrev pub Allowed : {S A : Type 0} → Contract S → Result A → Type 0
Allowed C (ok a) = Unit
Allowed C (err e) = C.allows e

-- `m` keeps `C`, whether it returns or raises.
pub record Keeps {S A : Type 0} (C : Contract S) (m : Exec S A) : Type 0 where
  pub related : (s : S) → C.rel s (m s).1
  pub allowed : (s : S) → Allowed C (m s).0

module _ {S A : Type 0} {C : Contract S} where
  pub Keeps-pure : (a : A) → Keeps C (pure a)
  unfolding pure
  Keeps-pure a = record { related = λ s. C.rel_refl s; allowed = λ s. tt }

  pub Keeps-raise : (e : Error) → C.allows e → Keeps C (raise {A = A} e)
  unfolding raise
  Keeps-raise e h = record { related = λ s. C.rel_refl s; allowed = λ s. h }

  pub Keeps-lift : (r : Result A) → Allowed C r → Keeps C (lift r)
  unfolding lift
  Keeps-lift r h = record { related = λ s. C.rel_refl s; allowed = λ s. h }

  pub Keeps-if :
      (b : Bool) (m n : Exec S A)
      → (b ≡ true → Keeps C m)
      → (b ≡ false → Keeps C n)
      → Keeps C (if b then m else n)
  Keeps-if true m n km kn = km refl
  Keeps-if false m n km kn = kn refl

  recover_related :
      (handler : Error → Exec S A) (s t : S) (r : Result A)
      → C.rel s t
      → Allowed C r
      → ((e : Error) → C.allows e → Keeps C (handler e))
      → C.rel s (recover handler r t).1
  recover_related handler s t (ok a) h w k = h
  recover_related handler s t (err (failure m)) h w k = C.rel_trans s t _ h ((k _ w).related t)
  recover_related handler s t (err (blocked m)) h w k = C.rel_trans s t _ h ((k _ w).related t)
  recover_related handler s t (err (builtin b)) h w k = h
  recover_related handler s t (err diverged) h w k = h

  recover-Allowed :
      (handler : Error → Exec S A) (t : S) (r : Result A)
      → Allowed C r
      → ((e : Error) → C.allows e → Keeps C (handler e))
      → Allowed C (recover handler r t).0
  recover-Allowed handler t (ok a) h k = h
  recover-Allowed handler t (err (failure m)) h k = (k _ h).allowed t
  recover-Allowed handler t (err (blocked m)) h k = (k _ h).allowed t
  recover-Allowed handler t (err (builtin b)) h k = h
  recover-Allowed handler t (err diverged) h k = h

  pub Keeps-catch :
      (m : Exec S A) (handler : Error → Exec S A)
      → Keeps C m
      → ((e : Error) → C.allows e → Keeps C (handler e))
      → Keeps C (catch m handler)
  unfolding catch
  Keeps-catch m handler k h = record {
    related = λ s. recover_related handler s (m s).1 (m s).0 (k.related s) (k.allowed s) h;
    allowed = λ s. recover-Allowed handler (m s).1 (m s).0 (k.allowed s) h;
  }

module _ {S A B : Type 0} {C : Contract S} where
  continue_related :
      (f : A → Exec S B) (s t : S) (r : Result A)
      → C.rel s t
      → ((a : A) → r ≡ ok a → Keeps C (f a))
      → C.rel s (continue r f t).1
  continue_related f s t (ok a) h k = C.rel_trans s t _ h ((k a refl).related t)
  continue_related f s t (err e) h k = h

  continue-Allowed :
      (f : A → Exec S B) (t : S) (r : Result A)
      → Allowed C r
      → ((a : A) → r ≡ ok a → Keeps C (f a))
      → Allowed C (continue r f t).0
  continue-Allowed f t (ok a) h k = (k a refl).allowed t
  continue-Allowed f t (err e) h k = h

  pub Keeps-bind :
      (m : Exec S A) (f : A → Exec S B) → Keeps C m → ((a : A) → Keeps C (f a)) → Keeps C (m >>= f)
  unfolding ◌>>=◌
  Keeps-bind m f k h = record {
    related = λ s. continue_related f s (m s).1 (m s).0 (k.related s) (λ a _. h a);
    allowed = λ s. continue-Allowed f (m s).1 (m s).0 (k.allowed s) (λ a _. h a);
  }

  -- The rest of the block may use that `r` did not raise.
  pub Keeps-bind-lift :
      (r : Result A) (f : A → Exec S B)
      → Allowed C r
      → ((a : A) → r ≡ ok a → Keeps C (f a))
      → Keeps C (lift r >>= f)
  unfolding ◌>>=◌
  Keeps-bind-lift r f k h = record {
    related = λ s. continue_related f s s r (C.rel_refl s) h;
    allowed = λ s. continue-Allowed f s r k h;
  }

module _ {S : Type 0} {C : Contract S} where
  pub Keeps-raise_unless : (b : Bool) (e : Error) → C.allows e → Keeps C (raise_unless b e)
  unfolding raise_unless
  Keeps-raise_unless true e h = Keeps-pure tt
  Keeps-raise_unless false e h = Keeps-raise e h

  pub Keeps-raise_if : (b : Bool) (e : Error) → C.allows e → Keeps C (raise_if b e)
  unfolding raise_if
  Keeps-raise_if true e h = Keeps-raise e h
  Keeps-raise_if false e h = Keeps-pure tt

  pub Keeps-or_raise : {A : Type 0} (o : Option A) (e : Error) → C.allows e → Keeps C (or_raise o e)
  unfolding or_raise
  Keeps-or_raise none e h = Keeps-raise e h
  Keeps-or_raise (some a) e h = Keeps-pure a

module _ {S A : Type 0} {C : Contract S} where
  pub Keeps-for_each :
      (m : A → Exec S (Unit {0})) (l : List A) → ((a : A) → Keeps C (m a)) → Keeps C (for_each m l)
  unfolding for_each
  Keeps-for_each m [] h = Keeps-pure tt
  Keeps-for_each m (a ∷ l) h = Keeps-bind (m a) _ (h a) (λ _. Keeps-for_each m l h)

  pub Keeps-fold :
      {V : Type 0} (m : A → V → Exec S V) (l : List A) (v : V)
      → ((a : A) (w : V) → Keeps C (m a w))
      → Keeps C (fold m l v)
  unfolding fold
  Keeps-fold m [] v h = Keeps-pure v
  Keeps-fold m (a ∷ l) v h = Keeps-bind (m a v) _ (h a v) (λ w. Keeps-fold m l w h)

  pub Keeps-map_each :
      {B : Type 0} (m : A → Exec S B) (l : List A)
      → ((a : A) → Keeps C (m a))
      → Keeps C (map_each m l)
  unfolding map_each
  Keeps-map_each m [] h = Keeps-pure []
  Keeps-map_each m (a ∷ l) h =
      Keeps-bind (m a) _ (h a)
        (λ b. Keeps-bind (map_each m l) _ (Keeps-map_each m l h) (λ rest. Keeps-pure (b ∷ rest)))

  pub Keeps-all_of :
      (m : A → Exec S Bool) (l : List A) → ((a : A) → Keeps C (m a)) → Keeps C (all_of m l)
  unfolding all_of
  Keeps-all_of m [] h = Keeps-pure true
  Keeps-all_of m (a ∷ l) h =
      Keeps-bind (m a) _ (h a)
        (λ held. Keeps-if held _ _ (λ _. Keeps-all_of m l h) (λ _. Keeps-pure false))

pub ruleset keeps_rules = (
  Keeps-pure, Keeps-raise, Keeps-if, Keeps-catch, Keeps-bind, Keeps-raise_unless, Keeps-raise_if,
  Keeps-or_raise, Keeps-for_each, Keeps-fold, Keeps-map_each, Keeps-all_of,
)
