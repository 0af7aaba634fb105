-- ===== src/Digest/Bits.antt =====
-- Laws of exclusive or, from its definition on binary digits.
use Prim.Native.Nat.{digits, differ, bit_xor-bitwise}
use native.Mathlib.Nat.{pow-suc}
use local_peer_connections.Prelude.{
  ℕ, zero, suc, ◌+◌, ◌*◌, ◌/◌, ◌%◌, ◌^◌, ◌≤◌, ◌<◌, ◌≡◌, refl, arith, bit_xor,
}

abbrev xor_digits : ℕ → ℕ → ℕ → ℕ
xor_digits n a b = digits (λ b. b) differ n a b

xor_digits_fuel : (n m a b : ℕ) → a ≤ n → a ≤ m → xor_digits n a b ≡ xor_digits m a b
xor_digits_fuel zero zero a b p q = refl
xor_digits_fuel zero (suc m) zero b p q = refl
xor_digits_fuel zero (suc m) (suc a) b p q = absurd (omega arith)
xor_digits_fuel (suc n) zero zero b p q = refl
xor_digits_fuel (suc n) zero (suc a) b p q = absurd (omega arith)
xor_digits_fuel (suc n) (suc m) zero b p q = refl
xor_digits_fuel (suc n) (suc m) (suc a) b p q =
    omega (arith, xor_digits_fuel n m (suc a / 2) (b / 2) (omega arith) (omega arith))

zero-bit_xor : (b : ℕ) → bit_xor 0 b ≡ b
zero-bit_xor b = bit_xor-bitwise 0 b

-- Exclusive or of two digits, as arithmetic.
differ-eq : (a b : ℕ) → differ (a % 2) (b % 2) ≡ (a + b) % 2
differ-eq a b = bits (a % 2) (b % 2) (omega arith) (omega arith) (omega arith)
  where
    bits : (x y : ℕ) → x < 2 → y < 2 → (a + b) % 2 ≡ (x + y) % 2 → differ x y ≡ (a + b) % 2
    bits zero y p q h = omega arith
    bits (suc zero) zero p q h = omega arith
    bits (suc zero) (suc zero) p q h = omega arith
    bits (suc zero) (suc (suc y)) p q h = absurd (omega arith)
    bits (suc (suc x)) y p q h = absurd (omega arith)

step : (a b : ℕ) → bit_xor a b ≡ bit_xor (a / 2) (b / 2) * 2 + (a + b) % 2
step zero b = omega (arith, zero-bit_xor b, zero-bit_xor (b / 2))
step (suc a) b = omega (
  arith,
  differ-eq (suc a) b,
  bit_xor-bitwise (suc a) b,
  bit_xor-bitwise (suc a / 2) (b / 2),
  xor_digits_fuel a (suc a / 2) (suc a / 2) (b / 2) (omega arith) (omega arith),
)

bit_xor_cancel_fuel : (n a b c : ℕ) → a ≤ n → b ≤ n → c ≤ n → bit_xor a b ≡ bit_xor a c → b ≡ c
bit_xor_cancel_fuel zero a b c p q r h = omega arith
bit_xor_cancel_fuel (suc n) a b c p q r h =
    let e : bit_xor (a / 2) (b / 2) ≡ bit_xor (a / 2) (c / 2) = omega (arith, step a b, step a c) in
    omega (
      arith,
      step a b,
      step a c,
      bit_xor_cancel_fuel n (a / 2) (b / 2) (c / 2) (omega arith) (omega arith) (omega arith) e,
    )

bit_xor_comm_fuel : (n a b : ℕ) → a ≤ n → b ≤ n → bit_xor a b ≡ bit_xor b a
bit_xor_comm_fuel zero a b p q = let e : a ≡ b = omega arith in rw e refl
bit_xor_comm_fuel (suc n) a b p q =
    omega
      (arith, step a b, step b a, bit_xor_comm_fuel n (a / 2) (b / 2) (omega arith) (omega arith))

pub bit_xor_comm : (a b : ℕ) → bit_xor a b ≡ bit_xor b a
bit_xor_comm a b = bit_xor_comm_fuel (a + b) a b (omega arith) (omega arith)

pub bit_xor_cancel_left : (a b c : ℕ) → bit_xor a b ≡ bit_xor a c → b ≡ c
bit_xor_cancel_left a b c h =
    bit_xor_cancel_fuel (a + b + c) a b c (omega arith) (omega arith) (omega arith) h

pub bit_xor_cancel_right : (a b c : ℕ) → bit_xor a c ≡ bit_xor b c → a ≡ b
bit_xor_cancel_right a b c h =
    bit_xor_cancel_left c a b (omega (arith, bit_xor_comm a c, bit_xor_comm b c))

pub bit_xor-lt : (k a b : ℕ) → a < 2 ^ k → b < 2 ^ k → bit_xor a b < 2 ^ k
bit_xor-lt zero a b p q = let e : a ≡ 0 = omega arith in rw e (omega (arith, zero-bit_xor b))
bit_xor-lt (suc k) a b p q = omega (
  arith,
  pow-suc 2 k,
  step a b,
  bit_xor-lt k (a / 2) (b / 2) (omega (arith, pow-suc 2 k)) (omega (arith, pow-suc 2 k)),
)
