-- ===== src/Hash/Hex.antt =====
-- `hex` and `from_hex`.
use wsldrive.Prelude.{
  ℕ, ◌*◌, ◌/◌, ◌%◌, ◌<◌, ◌≡◌, refl, Bool, true, [], ◌∷◌, Bytes, IsByte, All, length, arith, Option,
  none, some, ◌==◌,
}
use wsldrive.Prelude.Bits.{holds_below, holds_below_lem}
use wsldrive.Hash.{hex_digit, hex_value, hex, hex_byte, from_hex_loop, from_hex, cons_byte}

abbrev is_some : ℕ → Option ℕ → Bool
is_some b none = Bool.false
is_some b (some c) = b == c

is_some_iff : (b : ℕ) (o : Option ℕ) → is_some b o ≡ true → o ≡ some b
is_some_iff b none h = cc
is_some_iff b (some c) h = ground arith

hex_byte-hex_digit : (b : ℕ) → b < 256 → hex_byte (hex_digit (b / 16)) (hex_digit (b % 16)) ≡ some b
hex_byte-hex_digit b h = is_some_iff b _ (
    holds_below_lem (λ x. is_some x (hex_byte (hex_digit (x / 16)) (hex_digit (x % 16)))) 256 b h
      table)
  where
    table :
        holds_below (λ x. is_some x (hex_byte (hex_digit (x / 16)) (hex_digit (x % 16)))) 256 ≡ true
    table = unfold holds_below hex_byte hex_digit hex_value in refl

from_hex_loop-hex : (d : Bytes) → All IsByte d → from_hex_loop (hex d) ≡ some d
unfolding from_hex_loop hex cons_byte
from_hex_loop-hex [] h = refl
from_hex_loop-hex (b ∷ d) h = rw (hex_byte-hex_digit b h.0, from_hex_loop-hex d h.1) refl

pub length-hex : (d : Bytes) → length (hex d) ≡ 2 * length d
unfolding hex
length-hex [] = refl
length-hex (b ∷ d) = omega (arith, length-hex d)

-- A digest of 32 bytes is read back from its hexadecimal form.
pub from_hex-hex : (d : Bytes) → All IsByte d → length d ≡ 32 → from_hex (hex d) ≡ some d
unfolding from_hex
from_hex-hex d bytes size = rw (from_hex_loop-hex d bytes) (ground (arith, length-hex d))
