-- ===== src/Hash.antt =====
-- src/core/hash.cpp and hash_util.hpp: digests in hexadecimal, and the hash of the tables. BLAKE3
-- is a library, and a parameter where it is used.
pub mod Hex
use wsldrive.Prelude.{
  ℕ, zero, suc, ◌+◌, ◌-◌, ◌*◌, ◌/◌, ◌%◌, ◌^◌, bit_or, bit_xor, Bool, true, false, not, ◌&&◌, ◌||◌,
  List, [], ◌∷◌, ◌++◌, Bytes, length, take, drop, ltb, leb, ◌==◌, Option, none, some, if◌then◌else◌,
}

-- `kHexDigits[n]`
unfoldable pub hex_digit : ℕ → ℕ
hex_digit n = if ltb n 10 then b'0' + n else b'a' + (n - 10)

-- `hex_value`, with none for -1.
unfoldable pub hex_value : ℕ → Option ℕ
hex_value c =
    if leb b'0' c && leb c b'9'
    then some (c - b'0')
    else if leb b'a' c && leb c b'f'
    then some (c - b'a' + 10)
    else if leb b'A' c && leb c b'F'
    then some (c - b'A' + 10)
    else none

-- `Digest::hex` and the loop of `generate_auth_token`: two digits for a byte.
unfoldable pub hex : Bytes → Bytes
hex [] = []
hex (b ∷ bytes) = hex_digit (b / 16) ∷ hex_digit (b % 16) ∷ hex bytes

-- One round of the loop of `from_hex`.
unfoldable pub hex_byte : ℕ → ℕ → Option ℕ
hex_byte h l = elim (hex_value h) [
  | none ↦ none
  | some hi ↦ elim (hex_value l) [ none ↦ none | some lo ↦ some (bit_or (hi * 16) lo) ]
]

unfoldable pub cons_byte : Option ℕ → Option Bytes → Option Bytes
cons_byte (some b) (some bytes) = some (b ∷ bytes)
cons_byte _ _ = none

unfoldable pub from_hex_loop : Bytes → Option Bytes
from_hex_loop [] = some []
from_hex_loop (h ∷ []) = none
from_hex_loop (h ∷ l ∷ s) = cons_byte (hex_byte h l) (from_hex_loop s)

unfoldable pub from_hex : Bytes → Option Bytes
from_hex s = if not (length s == 64) then none else from_hex_loop s

unfoldable pub mix64 : ℕ → ℕ
mix64 x =
    let a = bit_xor x (x / 2 ^ 32) * 0xd6e8feb86659fd93 % 2 ^ 64 in
    let b = bit_xor a (a / 2 ^ 32) * 0xd6e8feb86659fd93 % 2 ^ 64 in bit_xor b (b / 2 ^ 32)

-- `std::memcpy` of up to eight bytes into a number, on a little-endian machine.
unfoldable pub load : Bytes → ℕ
load [] = 0
load (b ∷ bytes) = b + 256 * load bytes

unfoldable pub absorb : ℕ → ℕ → ℕ
absorb h v = let m = bit_xor h v * 0x9FB21C651E98DF25 % 2 ^ 64 in bit_xor m (m / 2 ^ 29)

-- The loop `while (len >= 8)` and the rest behind it; a round takes eight bytes.
unfoldable pub hash_loop : ℕ → ℕ → Bytes → ℕ
hash_loop zero h bytes = h
hash_loop (suc fuel) h bytes =
    let rest = hash_loop fuel (absorb h (load (take 8 bytes))) (drop 8 bytes) in
    if leb 8 (length bytes) then rest else if length bytes == 0 then h else absorb h (load bytes)

unfoldable pub hash_bytes : Bytes → ℕ
hash_bytes bytes = mix64 (
    hash_loop (length bytes + 1)
      (bit_xor 0x9E3779B97F4A7C15 (length bytes * 0xff51afd7ed558ccd % 2 ^ 64)) bytes)
