-- ===== src/Python/Text/Decimal.antt =====
-- The decimal text of an integer: `int` reads it back, and it holds no blank and no sign but `-`.
use Prim.Native.Char.{Char, code}
use package.text.Mathlib.TextLemmas.{nil-append, cons-append}
use local_peer_connections.Prelude.{
  ℕ, zero, suc, ◌+◌, ◌*◌, ◌/◌, ◌%◌, ◌≤◌, ◌<◌, String, ◌<>◌, ◌≡◌, refl, sym, ap, ◌∙◌, Bool, true,
  false, ◌||◌, Option, none, some, ◌==◌, ==_iff, all_below, all_below_at, arith, Bool-cases, inl,
  inr, ◌-◌, if◌then◌else◌,
}
use local_peer_connections.Prelude.Int.{ℤ, pos, negsuc}
use local_peer_connections.Python.Text.{
  digit, digits, show, show_int, rsplit, is_digit, scan, is_space, skip_spaces, trim_end, negate,
  signed, to_int,
}

abbrev pub is_plain : Char → Bool
is_plain c = is_digit c || (code c == b'-')

-- A text of digits and signs.
abbrev pub Plain : String → Type 0
Plain String.[] = Unit
Plain (String.◌∷◌ c s) = (is_plain c ≡ true) × Plain s

abbrev is_value : ℕ → Bool
is_value d = code (digit d) == b'0' + d

values : all_below 10 is_value ≡ true
unfolding all_below
values = refl

code-digit : (d : ℕ) → d < 10 → code (digit d) ≡ b'0' + d
code-digit d h = (==_iff _ _).0 (all_below_at 10 is_value d values h)

is_digit-digit : (d : ℕ) → d < 10 → is_digit (digit d) ≡ true
unfolding is_digit
is_digit-digit d h = let e = code-digit d h in ground arith

plain_of_digit : (c : Char) → is_digit c ≡ true → is_plain c ≡ true
plain_of_digit c h = ground arith

digits-Plain : (fuel n : ℕ) (out : String) → Plain out → Plain (digits fuel n out)
unfolding digits
digits-Plain zero n out h = h
digits-Plain (suc fuel) n out h =
    let rest =
      digits-Plain fuel (n / 10) (String.◌∷◌ (digit (n % 10)) out)
        (plain_of_digit (digit (n % 10)) (is_digit-digit (n % 10) (omega arith)), h) in
    elim (Bool-cases (n == 0)) [ inl e ↦ rw e h | inr e ↦ rw e rest ]

-- The digit in front joins the number.
scan-digit :
    (d m : ℕ) (out : String) (seen : Bool)
    → d < 10
    → scan (String.◌∷◌ (digit d) out) m seen ≡ scan out (m * 10 + d) true
unfolding scan
scan-digit d m out seen h =
    let e = is_digit-digit d h in
    let c = code-digit d h in
    let value : m * 10 + (code (digit d) - b'0') ≡ m * 10 + d = omega arith in
    rw e (ap (λ n. scan out n true) value)

no_digits : (fuel : ℕ) (out : String) → digits fuel 0 out ≡ out
unfolding digits
no_digits zero out = refl
no_digits (suc fuel) out = refl

scan-digits :
    (fuel n : ℕ) (out : String) (seen : Bool)
    → n ≤ fuel
    → 0 < n
    → scan (digits fuel n out) 0 seen ≡ scan out n true
unfolding digits
scan-digits zero n out seen h k = absurd (omega arith)
scan-digits (suc fuel) n out seen h k =
    let next = String.◌∷◌ (digit (n % 10)) out in
    let nonzero : (n == 0) ≡ false = ground arith in
    rw nonzero (elim (Bool-cases (n / 10 == 0)) [
      | inl e ↦
          let none_left : n / 10 ≡ 0 = ground arith in
          ap (λ q. scan (digits fuel q next) 0 seen) none_left
          ∙ ap (λ t. scan t 0 seen) (no_digits fuel next)
          ∙ scan-digit (n % 10) 0 out seen (omega arith)
          ∙ ap (λ m. scan out m true) (omega arith)
      | inr e ↦
          scan-digits fuel (n / 10) next seen (omega arith) (ground arith)
          ∙ scan-digit (n % 10) (n / 10) out true (omega arith)
          ∙ ap (λ m. scan out m true) (omega arith)
    ])

-- To show something of the text of a number, for 0 and for the other numbers.
show-cases :
    (P : String → Type 0) (n : ℕ) → (n ≡ 0 → P "0") → (0 < n → P (digits (suc n) n "")) → P (show n)
unfolding show
show-cases P n h k = choose (n == 0) refl
  where
    choose : (b : Bool) → (n == 0) ≡ b → P (if b then "0" else digits (suc n) n "")
    choose true e = h (ground arith)
    choose false e = k (ground arith)

show-Plain : (n : ℕ) → Plain (show n)
unfolding is_digit
show-Plain n = show-cases Plain n (λ _. (refl, tt)) (λ _. digits-Plain (suc n) n "" tt)

pub show_int-Plain : (n : ℤ) → Plain (show_int n)
unfolding show_int is_digit
show_int-Plain (pos n) = show-Plain n
show_int-Plain (negsuc n) = (refl, show-Plain (suc n))

scan-show : (n : ℕ) → scan (show n) 0 false ≡ some n
unfolding scan is_digit
scan-show n =
    show-cases (λ s. scan s 0 false ≡ some n) n (λ z. ap some (sym z))
      (λ h. scan-digits (suc n) n "" false (omega arith) h)

not_space : (c : Char) → is_plain c ≡ true → is_space c ≡ false
unfolding is_space is_digit
not_space c h = ground arith

skip_spaces-Plain : (s : String) → Plain s → skip_spaces s ≡ s
unfolding skip_spaces
skip_spaces-Plain String.[] h = refl
skip_spaces-Plain (String.◌∷◌ c s) (p, h) =
    ap (λ b. if b then skip_spaces s else String.◌∷◌ c s) (not_space c p)

-- What `trim_end` does with a character before the trimmed rest.
keep_end :
    (c : Char) (s : String)
    → is_space c ≡ false
    → (elim s as (λ _. String) [
      | String.[] ↦ if is_space c then String.[] else String.◌∷◌ c String.[]
      | String.◌∷◌ d t ↦ String.◌∷◌ c (String.◌∷◌ d t)
    ])
      ≡ String.◌∷◌ c s
keep_end c String.[] e = rw e refl
keep_end c (String.◌∷◌ d t) e = refl

trim_end-Plain : (s : String) → Plain s → trim_end s ≡ s
unfolding trim_end
trim_end-Plain String.[] h = refl
trim_end-Plain (String.◌∷◌ c s) (p, h) =
    keep_end c (trim_end s) (not_space c p) ∙ ap (String.◌∷◌ c) (trim_end-Plain s h)

-- The test for a sign in front fails on a text that `scan` accepts from its first character.
signed_digits : (s : String) (n : ℕ) → scan s 0 false ≡ some n → signed s ≡ some (pos n)
unfolding signed scan is_digit
signed_digits String.[] n h = cc
signed_digits (String.◌∷◌ c s) n h = ground arith

-- `int` of a plain text.
to_int-Plain : (s : String) → Plain s → to_int s ≡ signed s
unfolding to_int
to_int-Plain s h =
    ap (λ t. signed (trim_end t)) (skip_spaces-Plain s h) ∙ ap signed (trim_end-Plain s h)

signed-show_int : (n : ℤ) → signed (show_int n) ≡ some n
unfolding show_int signed negate
signed-show_int (pos n) = signed_digits (show n) n (scan-show n)
signed-show_int (negsuc n) =
    ap (λ (o : Option ℕ). elim o as (λ _. Option ℤ) [ some m ↦ some (negate m) | none ↦ none ])
      (scan-show (suc n))

pub to_int-show_int : (n : ℤ) → to_int (show_int n) ≡ some n
to_int-show_int n = to_int-Plain (show_int n) (show_int-Plain n) ∙ signed-show_int n

-- `rsplit` finds no "=" in a plain text, and so splits at the "=" before it.
rsplit-Plain : (s : String) → Plain s → rsplit b'=' s ≡ none
unfolding rsplit is_digit
rsplit-Plain String.[] h = refl
rsplit-Plain (String.◌∷◌ c s) (p, h) =
    let rest = rsplit-Plain s h in
    let other : (code c == b'=') ≡ false = ground arith in rw rest (rw other refl)

rsplit-cons :
    (c : Char) (s left right : String)
    → rsplit b'=' s ≡ some (left, right)
    → rsplit b'=' (String.◌∷◌ c s) ≡ some (String.◌∷◌ c left, right)
unfolding rsplit
rsplit-cons c s left right h = rw h refl

rsplit-equals : (s : String) → Plain s → rsplit b'=' (String.◌∷◌ "=" s) ≡ some (String.[], s)
unfolding rsplit
rsplit-equals s h = rw (rsplit-Plain s h) refl

pub rsplit-join : (left s : String) → Plain s → rsplit b'=' (left <> ("=" <> s)) ≡ some (left, s)
rsplit-join String.[] s h =
    ap (rsplit b'=')
      (nil-append ("=" <> s) ∙ cons-append "=" String.[] s ∙ ap (String.◌∷◌ "=") (nil-append s))
    ∙ rsplit-equals s h
rsplit-join (String.◌∷◌ c left) s h =
    ap (rsplit b'=') (cons-append c left ("=" <> s))
    ∙ rsplit-cons c (left <> ("=" <> s)) left s (rsplit-join left s h)
