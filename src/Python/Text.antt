-- ===== src/Python/Text.antt =====
-- The text operations that the tools use: decimal numbers, `rsplit`, and `int`.
pub mod Decimal
use Prim.Native.Char.{Char, code}
use local_peer_connections.Prelude.{
  ℕ, zero, suc, ◌+◌, ◌-◌, ◌*◌, ◌/◌, ◌%◌, String, Bool, true, false, ◌&&◌, ◌||◌, Option, none, some,
  leb, ◌==◌, if◌then◌else◌,
}
use local_peer_connections.Prelude.Int.{ℤ, pos, negsuc}

abbrev pub digit : ℕ → Char
digit d =
    if d == 0
    then "0"
    else if d == 1
    then "1"
    else if d == 2
    then "2"
    else if d == 3
    then "3"
    else if d == 4
    then "4"
    else if d == 5
    then "5"
    else if d == 6
    then "6"
    else if d == 7
    then "7"
    else if d == 8
    then "8"
    else "9"

-- The decimal digits of `n` before `out`. `fuel` above `n` is enough.
unfoldable pub digits : ℕ → ℕ → String → String
digits zero n out = out
digits (suc fuel) n out =
    let rest = digits fuel (n / 10) (String.◌∷◌ (digit (n % 10)) out) in
    if n == 0 then out else rest

-- `str(n)`
unfoldable pub show : ℕ → String
unfolding digits
show n = if n == 0 then "0" else digits (suc n) n ""

unfoldable pub show_int : ℤ → String
unfolding show
show_int (pos n) = show n
show_int (negsuc n) = String.◌∷◌ "-" (show (suc n))

-- `s.rsplit("=", 1)`: the parts around the last `=`, if there is one.
unfoldable pub rsplit : ℕ → String → Option (String × String)
rsplit sep String.[] = none
rsplit sep (String.◌∷◌ c s) = elim (rsplit sep s) [
  | some (left, right) ↦ some (String.◌∷◌ c left, right)
  | none ↦ if code c == sep then some (String.[], s) else none
]

unfoldable pub is_digit : Char → Bool
is_digit c = leb b'0' (code c) && leb (code c) b'9'

-- The number that digits spell behind `n`; one underscore may stand between two digits.
-- `digit_seen` tells whether the character before was a digit.
unfoldable pub scan : String → ℕ → Bool → Option ℕ
unfolding is_digit
scan String.[] n digit_seen = if digit_seen then some n else none
scan (String.◌∷◌ c s) n digit_seen =
    let rest = scan s (if is_digit c then n * 10 + (code c - b'0') else n) (is_digit c) in
    if is_digit c || (code c == b'_' && digit_seen) then rest else none

unfoldable pub is_space : Char → Bool
is_space c = (leb 9 (code c) && leb (code c) 13) || (leb 28 (code c) && leb (code c) 32)

unfoldable pub skip_spaces : String → String
unfolding is_space
skip_spaces String.[] = String.[]
skip_spaces (String.◌∷◌ c s) =
    let rest = skip_spaces s in if is_space c then rest else String.◌∷◌ c s

-- The text without the blanks at its end.
unfoldable pub trim_end : String → String
unfolding is_space
trim_end String.[] = String.[]
trim_end (String.◌∷◌ c s) = elim (trim_end s) [
  | String.[] ↦ if is_space c then String.[] else String.◌∷◌ c String.[]
  | String.◌∷◌ d t ↦ String.◌∷◌ c (String.◌∷◌ d t)
]

unfoldable pub negate : ℕ → ℤ
negate zero = pos 0
negate (suc n) = negsuc n

unfoldable pub signed : String → Option ℤ
unfolding scan negate
signed String.[] = none
signed (String.◌∷◌ c s) =
    if code c == b'-'
    then elim (scan s 0 false) [ some n ↦ some (negate n) | none ↦ none ]
    else if code c == b'+'
    then elim (scan s 0 false) [ some n ↦ some (pos n) | none ↦ none ]
    else elim (scan (String.◌∷◌ c s) 0 false) [ some n ↦ some (pos n) | none ↦ none ]

-- `int(s)`, over the ASCII digits and blanks.
unfoldable pub to_int : String → Option ℤ
unfolding skip_spaces trim_end signed
to_int s = signed (trim_end (skip_spaces s))

-- `"".join(c for c in s if p(c))`
unfoldable pub keep : (Char → Bool) → String → String
keep p String.[] = String.[]
keep p (String.◌∷◌ c s) = elim (p c) [ true ↦ String.◌∷◌ c (keep p s) | false ↦ keep p s ]
