-- ===== src/Fixture/Payload.antt =====
-- `bytesFromArguments` for a size, and `payloadDigest`. The runner's digest of a size is the
-- digest that the fixture reports for the payload of this size.
pub mod Detects
use local_peer_connections.Prelude.{
  ℕ, zero, suc, ◌+◌, ◌%◌, ◌*◌, ◌^◌, bit_xor, String, ◌≡◌, refl, ap, ◌∙◌, List, [], ◌∷◌, arith,
  Option, none, some, ltb, if◌then◌else◌,
}
use local_peer_connections.Digest.{
  offset_basis, mix, digest_loop, payload_hash, payload_digest, hex,
}

-- `List<int>.generate(size, (index) => index % 251)`, from `index` on.
unfoldable pub generate : ℕ → ℕ → List ℕ
generate zero index = []
generate (suc count) index = index % 251 ∷ generate count (index + 1)

-- The payload that a command with a `size` sends; a larger size is refused.
unfoldable pub bytes_of_size : ℕ → Option (List ℕ)
bytes_of_size size = if ltb 1048576 size then none else some (generate size 0)

-- `for (final byte in bytes) value = ((value ^ (byte & 0xff)) * 16777619) & 0xffffffff`
unfoldable pub hash_bytes : List ℕ → ℕ → ℕ
hash_bytes [] value = value
hash_bytes (byte ∷ bytes) value =
    hash_bytes bytes ((bit_xor value (byte % 256) * 16777619) % 2 ^ 32)

-- `payloadDigest`
unfoldable pub digest_bytes : List ℕ → String
digest_bytes bytes = hex 8 (hash_bytes bytes 2166136261)

hash_bytes-generate :
    (count index value : ℕ)
    → hash_bytes (generate count index) value ≡ digest_loop count index value
unfolding hash_bytes generate digest_loop mix
hash_bytes-generate zero index value = refl
hash_bytes-generate (suc count) index value =
    let same : index % 251 % 256 ≡ index % 251 = omega arith in
    ap (λ (b : ℕ). hash_bytes (generate count (index + 1)) (mix value b)) same
    ∙ hash_bytes-generate count (index + 1) (mix value (index % 251))

-- The runner and the fixture compute the same digest of the test payload of a size.
pub digest_bytes-generate : (size : ℕ) → digest_bytes (generate size 0) ≡ payload_digest size
unfolding digest_bytes payload_digest payload_hash
digest_bytes-generate size = ap (hex 8) (hash_bytes-generate size 0 offset_basis)
