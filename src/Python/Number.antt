-- ===== src/Python/Number.antt =====
-- Numbers that a device reports: the arithmetic and the order that the scenarios apply to values
-- whose type they have not tested. Integers and Booleans compute here; a float compares exactly.
use local_peer_connections.Prelude.{
  ℕ, zero, suc, ◌+◌, ◌/◌, ◌^◌, Bool, none, some, ◌⊎◌, inl, inr, if◌then◌else◌,
}
use local_peer_connections.Prelude.Int.{ℤ, pos, negsuc, ltb_ℤ, ◌+ℤ◌, ◌*ℤ◌}
use local_peer_connections.Python.Value.{
  Value, boolean, int, float, str, as_int, as_number, scaled_int,
}
use local_peer_connections.Python.Text.{to_int}
use local_peer_connections.Exec.{Builtin, type_error, value_error, Result, ok, err, builtin}
use local_peer_connections.World.{Arithmetic}

abbrev pub settle {ℓ} : {A : Type ℓ} → Builtin ⊎ A → Result A
settle (inl e) = err (builtin e)
settle (inr a) = ok a

-- `v + w`
unfoldable pub add : Arithmetic → Value → Value → Result Value
add A v w = elim (as_int v) [
  | none ↦ settle (A.add v w)
  | some m ↦ elim (as_int w) [ none ↦ settle (A.add v w) | some n ↦ ok (int (m +ℤ n)) ]
]

-- `v * w`
unfoldable pub multiply : Arithmetic → Value → Value → Result Value
multiply A v w = elim (as_int v) [
  | none ↦ settle (A.multiply v w)
  | some m ↦ elim (as_int w) [ none ↦ settle (A.multiply v w) | some n ↦ ok (int (m *ℤ n)) ]
]

-- `v < w`
unfoldable pub less : Arithmetic → Value → Value → Result Bool
less A v w = elim (as_number v) [
  | none ↦ settle (A.less v w)
  | some (m, j) ↦ elim (as_number w) [
    | none ↦ settle (A.less v w)
    | some (n, k) ↦ ok (ltb_ℤ (scaled_int m k) (scaled_int n j))
  ]
]

-- `max(v, w)`: the second only if it is greater.
unfoldable pub greatest : Arithmetic → Value → Value → Result Value
greatest A v w = elim (less A v w) [ err e ↦ err e | ok above ↦ ok (if above then w else v) ]

-- `float(v)` and `v / w`
abbrev pub to_float : Arithmetic → Value → Result Value
to_float A v = settle (A.to_float v)

abbrev pub divide : Arithmetic → Value → Value → Result Value
divide A v w = settle (A.divide v w)

-- m / 2 ^ k without its fraction.
abbrev pub truncate : ℤ → ℕ → ℤ
truncate (pos n) k = pos (n / 2 ^ k)
truncate (negsuc n) k = let q = (n + 1) / 2 ^ k in elim q [ zero ↦ pos 0 | suc p ↦ negsuc p ]

-- `int(v)`
unfoldable pub int_of : Value → Result ℤ
int_of (int n) = ok n
int_of (boolean b) = ok (if b then pos 1 else pos 0)
int_of (float m k) = ok (truncate m k)
int_of (str s) = elim (to_int s) [ none ↦ err (builtin value_error) | some n ↦ ok n ]
int_of _ = err (builtin type_error)
