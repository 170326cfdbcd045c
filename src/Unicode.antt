-- ===== src/Unicode.antt =====
-- src/core/unicode.hpp and unicode.cpp: case folding of names in UTF-8.
pub mod Fold
pub mod Utf8
use wsldrive.Prelude.{
  ℕ, zero, suc, ◌+◌, ◌-◌, ◌*◌, ◌/◌, ◌%◌, ◌^◌, bit_and, bit_or, Bool, true, false, not, ◌&&◌, ◌||◌,
  [], ◌∷◌, ◌++◌, Bytes, length, take, drop, ltb, leb, ◌==◌, Option, none, some, if◌then◌else◌,
}

-- The length of a sequence and the payload of its first byte; `none` for a byte that begins none.
unfoldable pub lead : ℕ → Option (ℕ × ℕ)
lead b0 =
    if ltb b0 0x80
    then some (1, b0)
    else if bit_and b0 0xE0 == 0xC0
    then some (2, b0 % 32)
    else if bit_and b0 0xF0 == 0xE0
    then some (3, b0 % 16)
    else if bit_and b0 0xF8 == 0xF0
    then some (4, b0 % 8)
    else none

-- `for (k = 1; k < len; ++k)`: `cp = (cp << 6) | (b & 0x3F)`, or a failure.
unfoldable pub continuation : ℕ → Bytes → Option ℕ
continuation cp [] = some cp
continuation cp (b ∷ s) =
    let rest = continuation (bit_or (cp * 2 ^ 6) (b % 64)) s in
    if not (bit_and b 0xC0 == 0x80) then none else rest

-- Overlong encodings, surrogates, and what lies past U+10FFFF.
unfoldable pub is_rejected : ℕ → ℕ → Bool
is_rejected len cp =
    ((len == 2) && ltb cp 0x80)
    || (((len == 3) && ltb cp 0x800)
        || (((len == 4) && ltb cp 0x10000)
            || (ltb 0x10FFFF cp || (leb 0xD800 cp && leb cp 0xDFFF))))

-- A code point and the number of bytes it takes. A one-byte sequence returns before the tests.
unfoldable pub decode_sequence : ℕ → ℕ → ℕ → Bytes → Option (ℕ × ℕ)
decode_sequence len cp size rest =
    if len == 1
    then some (cp, 1)
    else if ltb size len
    then none
    else elim (continuation cp (take (len - 1) rest)) [
      | none ↦ none
      | some c ↦ if is_rejected len c then none else some (c, len)
    ]

unfoldable pub decode_utf8 : Bytes → Option (ℕ × ℕ)
decode_utf8 [] = none
decode_utf8 (b0 ∷ rest) = elim (lead b0) [
  | none ↦ none
  | some (len, cp) ↦ decode_sequence len cp (suc (length rest)) rest
]

unfoldable pub encode_utf8 : ℕ → Bytes
encode_utf8 cp =
    if ltb cp 0x80
    then (cp % 256) ∷ []
    else if ltb cp 0x800
    then (bit_or 0xC0 (cp / 2 ^ 6) % 256) ∷ (bit_or 0x80 (cp % 64) % 256) ∷ []
    else if ltb cp 0x10000
    then (bit_or 0xE0 (cp / 2 ^ 12) % 256)
      ∷ (bit_or 0x80 (cp / 2 ^ 6 % 64) % 256)
      ∷ (bit_or 0x80 (cp % 64) % 256)
      ∷ []
    else (bit_or 0xF0 (cp / 2 ^ 18) % 256)
      ∷ (bit_or 0x80 (cp / 2 ^ 12 % 64) % 256)
      ∷ (bit_or 0x80 (cp / 2 ^ 6 % 64) % 256)
      ∷ (bit_or 0x80 (cp % 64) % 256)
      ∷ []

-- Latin Extended-A, U+0100 to U+017F: the irregular letters first.
unfoldable pub fold_extended : ℕ → ℕ
fold_extended cp =
    if cp == 0x130
    then 0x69
    else if (cp == 0x131) || ((cp == 0x138) || (cp == 0x149))
    then cp
    else if cp == 0x178
    then 0xFF
    else if cp == 0x17F
    then 0x73
    else if (leb 0x139 cp && leb cp 0x148) || (leb 0x179 cp && leb cp 0x17E)
    then (if cp % 2 == 1 then cp + 1 else cp)
    else (if cp % 2 == 1 then cp else cp + 1)

unfoldable pub casefold_codepoint : ℕ → ℕ
casefold_codepoint cp =
    if ltb cp 0x80
    then (if leb b'A' cp && leb cp b'Z' then cp + 0x20 else cp)
    else if leb 0xC0 cp && (leb cp 0xDE && not (cp == 0xD7))
    then cp + 0x20
    else if leb 0x100 cp && leb cp 0x17F
    then fold_extended cp
    else if leb 0x391 cp && (leb cp 0x3A9 && not (cp == 0x3A2))
    then cp + 0x20
    else if leb 0x410 cp && leb cp 0x42F
    then cp + 0x20
    else if leb 0x400 cp && leb cp 0x40F
    then cp + 0x50
    else cp

unfoldable pub is_ascii : Bytes → Bool
is_ascii [] = true
is_ascii (c ∷ s) = ltb c 0x80 && is_ascii s

-- The loop takes a byte at least in each round, so the length of the input is fuel enough.
unfoldable pub casefold_loop : ℕ → Bytes → Bytes
casefold_loop zero s = []
casefold_loop (suc fuel) [] = []
casefold_loop (suc fuel) (b ∷ s) =
    let next = casefold_loop fuel s in
    if ltb b 0x80
    then (if leb b'A' b && leb b b'Z' then b + 0x20 else b) ∷ next
    else elim (decode_utf8 (b ∷ s)) [
      | none ↦ b ∷ next
      | some (cp, len) ↦
          encode_utf8 (casefold_codepoint cp) ++ casefold_loop fuel (drop len (b ∷ s))
    ]

unfoldable pub casefold_append : Bytes → Bytes → Bytes
casefold_append s out = out ++ casefold_loop (length s) s

unfoldable pub casefold : Bytes → Bytes
casefold s = casefold_append s []
