-- ===== src/Digest/Hash.antt =====
-- The digest detects a changed byte: each step is one to one in the value and in the byte.
use local_peer_connections.Prelude.{ℕ, zero, suc, ◌+◌, ◌*◌, ◌%◌, ◌^◌, ◌<◌, ◌≡◌, arith}
use local_peer_connections.Digest.{offset_basis, fnv_prime, mix, digest_loop, payload_hash}
use local_peer_connections.Digest.Bits.{bit_xor_cancel_left, bit_xor_cancel_right, bit_xor-lt}

pub mix-lt : (value byte : ℕ) → mix value byte < 2 ^ 32
unfolding mix
mix-lt value byte = omega arith

-- 16777619 is odd, so that it has an inverse modulo 2 ^ 32.
times_prime_injective :
    (x y : ℕ)
    → x < 2 ^ 32
    → y < 2 ^ 32
    → (x * fnv_prime) % 2 ^ 32 ≡ (y * fnv_prime) % 2 ^ 32
    → x ≡ y
times_prime_injective x y p q h = omega arith

pub mix_injective_left :
    (x y byte : ℕ) → x < 2 ^ 32 → y < 2 ^ 32 → byte < 2 ^ 32 → mix x byte ≡ mix y byte → x ≡ y
unfolding mix
mix_injective_left x y byte p q r h =
    bit_xor_cancel_right x y byte
      (times_prime_injective _ _ (bit_xor-lt 32 x byte p r) (bit_xor-lt 32 y byte q r) h)

pub mix_injective_right :
    (x b c : ℕ) → x < 2 ^ 32 → b < 2 ^ 32 → c < 2 ^ 32 → mix x b ≡ mix x c → b ≡ c
unfolding mix
mix_injective_right x b c p q r h =
    bit_xor_cancel_left x b c
      (times_prime_injective _ _ (bit_xor-lt 32 x b p q) (bit_xor-lt 32 x c p r) h)

pub digest_loop-lt :
    (count index value : ℕ) → value < 2 ^ 32 → digest_loop count index value < 2 ^ 32
unfolding digest_loop
digest_loop-lt zero index value h = h
digest_loop-lt (suc count) index value h =
    digest_loop-lt count (index + 1) (mix value (index % 251)) (mix-lt value (index % 251))

-- The hash fits the eight digits in which it is written.
pub payload_hash-lt : (size : ℕ) → payload_hash size < 2 ^ 32
unfolding payload_hash
payload_hash-lt size = digest_loop-lt size 0 offset_basis (omega arith)
