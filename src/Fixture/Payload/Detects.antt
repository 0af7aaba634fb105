-- ===== src/Fixture/Payload/Detects.antt =====
-- A payload with one changed byte has another digest.
use local_peer_connections.Prelude.{ℕ, ◌%◌, ◌^◌, ◌<◌, ◌≡◌, ◌≢◌, arith, List, [], ◌∷◌, ◌++◌}
use local_peer_connections.Digest.{offset_basis, mix}
use local_peer_connections.Digest.Hash.{mix-lt, mix_injective_left, mix_injective_right}
use local_peer_connections.Digest.Hex.{hex_injective}
use local_peer_connections.Fixture.Payload.{hash_bytes, digest_bytes}

hash_bytes-lt : (bytes : List ℕ) (value : ℕ) → value < 2 ^ 32 → hash_bytes bytes value < 2 ^ 32
unfolding hash_bytes mix
hash_bytes-lt [] value h = h
hash_bytes-lt (b ∷ bytes) value h = hash_bytes-lt bytes _ (mix-lt value (b % 256))

-- The same bytes after two values keep them apart.
hash_bytes_injective :
    (bytes : List ℕ) (x y : ℕ)
    → x < 2 ^ 32
    → y < 2 ^ 32
    → hash_bytes bytes x ≡ hash_bytes bytes y
    → x ≡ y
unfolding hash_bytes mix
hash_bytes_injective [] x y p q h = h
hash_bytes_injective (b ∷ bytes) x y p q h =
    mix_injective_left x y (b % 256) p q (omega arith)
      (hash_bytes_injective bytes _ _ (mix-lt x (b % 256)) (mix-lt y (b % 256)) h)

hash_bytes_changed :
    (before after : List ℕ) (a b value : ℕ)
    → value < 2 ^ 32
    → a < 256
    → b < 256
    → hash_bytes (before ++ a ∷ after) value ≡ hash_bytes (before ++ b ∷ after) value
    → a ≡ b
unfolding hash_bytes mix
hash_bytes_changed [] after a b value h p q e =
    let same : a % 256 ≡ b % 256 =
      mix_injective_right value (a % 256) (b % 256) h (omega arith) (omega arith)
        (hash_bytes_injective after _ _ (mix-lt value (a % 256)) (mix-lt value (b % 256)) e) in
    omega arith
hash_bytes_changed (c ∷ before) after a b value h p q e =
    hash_bytes_changed before after a b (mix value (c % 256)) (mix-lt value (c % 256)) p q e

-- Two payloads that differ in one byte have different digests.
pub digest_bytes_changed :
    (before after : List ℕ) (a b : ℕ)
    → a < 256
    → b < 256
    → a ≢ b
    → digest_bytes (before ++ a ∷ after) ≢ digest_bytes (before ++ b ∷ after)
unfolding digest_bytes
digest_bytes_changed before after a b p q differ e = differ (
    hash_bytes_changed before after a b offset_basis (omega arith) p q (
      hex_injective 8 _ _ (hash_bytes-lt (before ++ a ∷ after) offset_basis (omega arith))
        (hash_bytes-lt (before ++ b ∷ after) offset_basis (omega arith)) e))
