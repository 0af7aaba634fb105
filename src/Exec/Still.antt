-- ===== src/Exec/Still.antt =====
-- Steps that read and write nothing: when they return, the state is as it was.
use local_peer_connections.Prelude.{◌≡◌, ◌∙◌, Bool}
use local_peer_connections.Exec.{Error, Result, ok, Exec, lift, ◌>>=◌, raise_if, raise_unless}
use local_peer_connections.Exec.Inversion.{bind-ok, lift-ok, raise_if-ok}
use local_peer_connections.Exec.Each.{raise_unless-ok}

abbrev pub IsStill : {S A : Type 0} → Exec S A → Type 0
IsStill {S} {A} m = (a : A) (s t : S) → m s ≡ (ok a, t) → s ≡ t

module _ {S A : Type 0} where
  pub IsStill-bind :
      {B : Type 0} (m : Exec S A) (f : A → Exec S B)
      → IsStill m
      → ((a : A) → IsStill (f a))
      → IsStill (m >>= f)
  IsStill-bind m f still later b s t h =
      let (a, u, ran, rest) = bind-ok m f s b t h in still a s u ran ∙ later a b u t rest

  pub IsStill-lift : (r : Result A) → IsStill {S = S} (lift r)
  IsStill-lift r a s t h = (lift-ok r a s t h).1

module _ {S : Type 0} where
  pub IsStill-raise_if : (b : Bool) (e : Error) → IsStill {S = S} (raise_if b e)
  IsStill-raise_if b e x s t h = (raise_if-ok b e x s t h).1

  pub IsStill-raise_unless : (b : Bool) (e : Error) → IsStill {S = S} (raise_unless b e)
  IsStill-raise_unless b e x s t h = (raise_unless-ok b e x s t h).1

pub ruleset still_rules = (IsStill-bind, IsStill-lift, IsStill-raise_if, IsStill-raise_unless)
