-- ===== src/Digest/Width.antt =====
-- The digest of every size has eight digits, which hold the whole hash.
use Prim.Native.String.{count}
use local_peer_connections.Prelude.{ℕ, ◌^◌, ◌<◌, ◌≡◌, arith}
use local_peer_connections.Digest.{payload_hash, payload_digest}
use local_peer_connections.Digest.Hash.{payload_hash-lt}
use local_peer_connections.Digest.Hex.{count-hex, hex_injective}

-- For every size, the hash is below 2 ^ 32 and its digest has eight characters; sizes with the same
-- digest have the same hash, so that no digit of it is cut off.
pub payload_digest-width :
    (size other : ℕ)
    → (payload_hash size < 2 ^ 32)
      × (count (payload_digest size) ≡ 8)
      × (payload_digest size ≡ payload_digest other → payload_hash size ≡ payload_hash other)
unfolding payload_digest
payload_digest-width size other = (
  payload_hash-lt size,
  count-hex 8 (payload_hash size),
  λ h.
      hex_injective 8 (payload_hash size) (payload_hash other) (omega (arith, payload_hash-lt size))
        (omega (arith, payload_hash-lt other)) h,
)
