-- ===== src/Digest.antt =====
-- `Runner.payload_digest`, the FNV-1a digest of the test payload of a given size.
pub mod Bits
pub mod Hash
pub mod Hex
pub mod Width
use local_peer_connections.Prelude.{
  ℕ, zero, suc, ◌+◌, ◌*◌, ◌/◌, ◌%◌, ◌^◌, String, ◌<>◌, ◌≡◌, refl, bit_xor, ◌==◌, if◌then◌else◌,
}

abbrev pub offset_basis : ℕ
offset_basis = 2166136261

abbrev pub fnv_prime : ℕ
fnv_prime = 16777619

-- `((value ^ byte) * 16777619) & 0xFFFFFFFF`
unfoldable pub mix : ℕ → ℕ → ℕ
mix value byte = (bit_xor value byte * fnv_prime) % 2 ^ 32

-- The loop over `range(size)`, from `index` on, with `count` rounds left.
unfoldable pub digest_loop : ℕ → ℕ → ℕ → ℕ
digest_loop zero index value = value
digest_loop (suc count) index value = digest_loop count (index + 1) (mix value (index % 251))

unfoldable pub payload_hash : ℕ → ℕ
payload_hash size = digest_loop size 0 offset_basis

abbrev pub hex_digit : ℕ → String
hex_digit d =
    if d == 0
    then "0"
    else if d == 1
    then "1"
    else if d == 2
    then "2"
    else if d == 3
    then "3"
    else if d == 4
    then "4"
    else if d == 5
    then "5"
    else if d == 6
    then "6"
    else if d == 7
    then "7"
    else if d == 8
    then "8"
    else if d == 9
    then "9"
    else if d == 10
    then "a"
    else if d == 11
    then "b"
    else if d == 12
    then "c"
    else if d == 13
    then "d"
    else if d == 14
    then "e"
    else "f"

-- The last `width` hexadecimal digits of a value, leading zeros included.
unfoldable pub hex : ℕ → ℕ → String
hex zero value = ""
hex (suc width) value = hex width (value / 16) <> hex_digit (value % 16)

-- `f"{value:08x}"`; the value is below 2 ^ 32, so that eight digits hold it.
unfoldable pub payload_digest : ℕ → String
unfolding payload_hash digest_loop mix hex
payload_digest size = hex 8 (payload_hash size)

digest_of_empty : payload_digest 0 ≡ "811c9dc5"
unfolding payload_digest
digest_of_empty = refl

digest_of_32 : payload_digest 32 ≡ "0913ad65"
unfolding payload_digest
digest_of_32 = refl
