-- ===== src/Digest/Hex.antt =====
-- Eight hexadecimal digits determine the number that they write.
use Prim.Native.Char.{code}
use Prim.Native.String.{count}
use text.Mathlib.TextLemmas.{length-append, append_inj}
use local_peer_connections.Prelude.{
  ℕ, zero, suc, ◌-◌, ◌/◌, ◌%◌, ◌^◌, ◌<◌, String, ◌≡◌, refl, sym, ◌∙◌, ap, Bool, true, arith, ltb,
  ◌==◌, ==_iff, all_below, all_below_at, if◌then◌else◌,
}
use native.Mathlib.Nat.{pow-suc}
use local_peer_connections.Digest.{hex_digit, hex}

-- The value of a text of one hexadecimal digit.
abbrev digit_value : String → ℕ
digit_value String.[] = 0
digit_value (String.◌∷◌ c s) = if ltb (code c) b'a' then code c - b'0' else code c - 87

abbrev is_value : ℕ → Bool
is_value x = digit_value (hex_digit x) == x

abbrev is_single : ℕ → Bool
is_single x = count (hex_digit x) == 1

values : all_below 16 is_value ≡ true
unfolding all_below
values = refl

singles : all_below 16 is_single ≡ true
unfolding all_below
singles = refl

digit_value-hex_digit : (d : ℕ) → d < 16 → digit_value (hex_digit d) ≡ d
digit_value-hex_digit d h = (==_iff _ d).0 (all_below_at 16 is_value d values h)

count-hex_digit : (d : ℕ) → d < 16 → count (hex_digit d) ≡ 1
count-hex_digit d h = (==_iff _ 1).0 (all_below_at 16 is_single d singles h)

pub count-hex : (width value : ℕ) → count (hex width value) ≡ width
unfolding hex
count-hex zero value = refl
count-hex (suc width) value = omega (
  arith,
  length-append (hex width (value / 16)) (hex_digit (value % 16)),
  count-hex width (value / 16),
  count-hex_digit (value % 16) (omega arith),
)

pub hex_injective :
    (width a b : ℕ) → a < 16 ^ width → b < 16 ^ width → hex width a ≡ hex width b → a ≡ b
unfolding hex
hex_injective zero a b p q h = omega arith
hex_injective (suc width) a b p q h =
    let (high, low) = append_inj h (count-hex width (a / 16) ∙ sym (count-hex width (b / 16))) in
    let digit : a % 16 ≡ b % 16 =
      sym (digit_value-hex_digit (a % 16) (omega arith))
      ∙ ap digit_value low
      ∙ digit_value-hex_digit (b % 16) (omega arith) in
    let rest : a / 16 ≡ b / 16 =
      hex_injective width (a / 16) (b / 16) (omega (arith, pow-suc 16 width))
        (omega (arith, pow-suc 16 width)) high in
    omega arith
