-- ===== src/Exec.antt =====
-- What a method of the runner may do: read and write the state, and raise. The state comes back
-- beside an error too, since what was written before a `raise` stays written.
pub mod Contract
pub mod Each
pub mod Inversion
pub mod Still
use local_peer_connections.Prelude.{
  String, Bool, true, false, Option, none, some, List, [], ◌∷◌, if◌then◌else◌,
}
use local_peer_connections.Python.Value.{Value}

-- An f-string, as the pieces that it joins. A value that it shows is formatted by the language.
pub data Piece : Type 0 where
  text : String → Piece
  shown : Value → Piece
  -- `{v:spec}`
  formatted : Value → String → Piece

abbrev pub Message : Type 0
Message = List Piece

-- The exceptions that no `except` clause of the tools catches; `system_exit` is `SystemExit` with a
-- text.
pub data Builtin : Type 0 where
  attribute_error type_error key_error value_error index_error : Builtin
  stop_iteration assertion_error json_error zero_division_error overflow_error : Builtin
  timeout_error connection_error : Builtin
  system_exit : Message → Builtin

-- `RunnerFailure`, its subclass `ScenarioBlocked`, and what neither `except` clause catches.
-- `diverged` is no exception: a bounded loop of the model has used up its rounds.
pub data Error : Type 0 where
  failure : Message → Error
  blocked : Message → Error
  builtin : Builtin → Error
  diverged : Error

pub data Result {ℓ} (A : Type ℓ) : Type ℓ where
  ok : A → Result A
  err : Error → Result A

abbrev pub Exec {ℓ} : Type ℓ → Type ℓ → Type ℓ
Exec S A = S → Result A × S

module _ {ℓ} {S A : Type ℓ} where
  unfoldable pub pure : A → Exec S A
  pure a s = (ok a, s)

  unfoldable pub raise : Error → Exec S A
  raise e s = (err e, s)

  unfoldable pub lift : Result A → Exec S A
  lift r s = (r, s)

  -- `try: m except RunnerFailure as error: handler(error)`
  abbrev pub recover : (Error → Exec S A) → Result A → Exec S A
  recover handler (ok a) s = (ok a, s)
  recover handler (err (failure m)) s = handler (failure m) s
  recover handler (err (blocked m)) s = handler (blocked m) s
  recover handler (err (builtin b)) s = (err (builtin b), s)
  recover handler (err diverged) s = (err diverged, s)

  unfoldable pub catch : Exec S A → (Error → Exec S A) → Exec S A
  catch m handler s = let (r, s') = m s in recover handler r s'

-- A chain of pure steps that may raise.
unfoldable pub and_then {ℓ κ} : {A : Type ℓ} {B : Type κ} → Result A → (A → Result B) → Result B
and_then (ok a) f = f a
and_then (err e) f = err e

unfoldable pub ok_or {ℓ} : {A : Type ℓ} → Option A → Error → Result A
ok_or (some a) e = ok a
ok_or none e = err e

module _ {ℓ} {S A B : Type ℓ} where
  abbrev pub continue : Result A → (A → Exec S B) → Exec S B
  continue (ok a) f s = f a s
  continue (err e) f s = (err e, s)

  infixl 10 ◌>>=◌ ◌>>◌
  -- Opening this opens `pure`, `raise` and `lift` too.
  unfoldable pub ◌>>=◌ : Exec S A → (A → Exec S B) → Exec S B
  unfolding pure raise lift
  ◌>>=◌ m f s = let (r, s') = m s in continue r f s'

  abbrev pub ◌>>◌ : Exec S A → Exec S B → Exec S B
  m >> n = m >>= λ _. n

-- `str(error)` of an error that an `except RunnerFailure` has caught.
abbrev pub message : Error → Message
message (failure m) = m
message (blocked m) = m
message (builtin b) = []
message diverged = []

module _ {S : Type 0} where
  -- `raise_unless c e`: the guard `if not c: raise e`.
  unfoldable pub raise_unless : Bool → Error → Exec S (Unit {0})
  raise_unless true e = pure tt
  raise_unless false e = raise e

  unfoldable pub raise_if : Bool → Error → Exec S (Unit {0})
  raise_if true e = raise e
  raise_if false e = pure tt

  -- A value of the tested type, or the error.
  unfoldable pub or_raise : {A : Type 0} → Option A → Error → Exec S A
  or_raise none e = raise e
  or_raise (some a) e = pure a

  module _ {A : Type 0} where
    -- `for a in l: m(a)`
    unfoldable pub for_each : (A → Exec S (Unit {0})) → List A → Exec S (Unit {0})
    for_each m [] = pure tt
    for_each m (a ∷ l) = do m a; for_each m l

    -- `for a in l: v = m(a, v)`, for a loop that changes the local variables `v`.
    unfoldable pub fold : {V : Type 0} → (A → V → Exec S V) → List A → V → Exec S V
    fold m [] v = pure v
    fold m (a ∷ l) v = do v' ← m a v; fold m l v'

    -- `[m(a) for a in l]`
    unfoldable pub map_each : {B : Type 0} → (A → Exec S B) → List A → Exec S (List B)
    map_each m [] = pure []
    map_each m (a ∷ l) = do b ← m a; rest ← map_each m l; pure (b ∷ rest)

    -- `all(m(a) for a in l)`, which stops at the first test that fails.
    unfoldable pub all_of : (A → Exec S Bool) → List A → Exec S Bool
    all_of m [] = pure true
    all_of m (a ∷ l) = do held ← m a; if held then all_of m l else pure false
