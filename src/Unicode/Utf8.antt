-- ===== src/Unicode/Utf8.antt =====
-- UTF-8: the decoder reads back what the encoder writes.
use native.Mathlib.Decide.{dec_lt}
use wsldrive.Prelude.{
  ℕ, suc, ◌+◌, ◌-◌, ◌*◌, ◌/◌, ◌%◌, ◌^◌, ◌≤◌, ◌<◌, ◌≡◌, refl, ap, ◌∙◌, bit_and, bit_or, false, [],
  ◌∷◌, ◌++◌, Bytes, length, take, arith, lt→ltb, le→ltb, some,
}
use wsldrive.Prelude.Bits.{holds_below, eq_below, bit_or-disjoint_left}
use wsldrive.Unicode.{lead, continuation, is_rejected, decode_sequence, decode_utf8, encode_utf8}
use wsldrive.Unicode.Fold.{IsScalar}

or_C0 : (x : ℕ) → x < 32 → bit_or 0xC0 x % 256 ≡ 0xC0 + x
unfolding holds_below
or_C0 = eq_below 32 (λ x. bit_or 0xC0 x % 256) (λ x. 0xC0 + x) refl

or_E0 : (x : ℕ) → x < 16 → bit_or 0xE0 x % 256 ≡ 0xE0 + x
unfolding holds_below
or_E0 = eq_below 16 (λ x. bit_or 0xE0 x % 256) (λ x. 0xE0 + x) refl

or_F0 : (x : ℕ) → x < 8 → bit_or 0xF0 x % 256 ≡ 0xF0 + x
unfolding holds_below
or_F0 = eq_below 8 (λ x. bit_or 0xF0 x % 256) (λ x. 0xF0 + x) refl

or_80 : (x : ℕ) → x < 64 → bit_or 0x80 x % 256 ≡ 0x80 + x
unfolding holds_below
or_80 = eq_below 64 (λ x. bit_or 0x80 x % 256) (λ x. 0x80 + x) refl

and_E0 : (x : ℕ) → x < 256 → bit_and x 0xE0 ≡ x / 32 * 32
unfolding holds_below
and_E0 = eq_below 256 (λ x. bit_and x 0xE0) (λ x. x / 32 * 32) refl

and_F0 : (x : ℕ) → x < 256 → bit_and x 0xF0 ≡ x / 16 * 16
unfolding holds_below
and_F0 = eq_below 256 (λ x. bit_and x 0xF0) (λ x. x / 16 * 16) refl

and_F8 : (x : ℕ) → x < 256 → bit_and x 0xF8 ≡ x / 8 * 8
unfolding holds_below
and_F8 = eq_below 256 (λ x. bit_and x 0xF8) (λ x. x / 8 * 8) refl

and_C0 : (x : ℕ) → x < 256 → bit_and x 0xC0 ≡ x / 64 * 64
unfolding holds_below
and_C0 = eq_below 256 (λ x. bit_and x 0xC0) (λ x. x / 64 * 64) refl

lead_two : (x : ℕ) → x < 32 → lead (0xC0 + x) ≡ some (2, x)
unfolding lead
lead_two x h = ground (arith, and_E0 (0xC0 + x))

lead_three : (x : ℕ) → x < 16 → lead (0xE0 + x) ≡ some (3, x)
unfolding lead
lead_three x h = ground (arith, and_E0 (0xE0 + x), and_F0 (0xE0 + x))

lead_four : (x : ℕ) → x < 8 → lead (0xF0 + x) ≡ some (4, x)
unfolding lead
lead_four x h = ground (arith, and_E0 (0xF0 + x), and_F0 (0xF0 + x), and_F8 (0xF0 + x))

-- One continuation byte over the six bits `x`.
continuation_step :
    (cp x : ℕ) (s : Bytes)
    → x < 64
    → continuation cp ((0x80 + x) ∷ s) ≡ continuation (cp * 64 + x) s
unfolding continuation
continuation_step cp x s h =
    ground (arith, and_C0 (0x80 + x), bit_or-disjoint_left 6 cp ((0x80 + x) % 64))

continuation_end : (cp : ℕ) → continuation cp [] ≡ some cp
unfolding continuation
continuation_end cp = refl

-- A decoded sequence, once its parts are known.
decode_parts :
    (b0 len cp0 c : ℕ) (rest : Bytes)
    → lead b0 ≡ some (len, cp0)
    → 2 ≤ len
    → len ≤ suc (length rest)
    → continuation cp0 (take (len - 1) rest) ≡ some c
    → is_rejected len c ≡ false
    → decode_utf8 (b0 ∷ rest) ≡ some (c, len)
unfolding decode_utf8 decode_sequence
decode_parts b0 len cp0 c rest hl two enough hc hr =
    rw (hl, decode_utf8) (ground (arith, hc, hr, le→ltb (suc (length rest)) len enough))

two_bytes :
    (cp : ℕ) (rest : Bytes)
    → 0x80 ≤ cp
    → cp < 0x800
    → decode_utf8 (encode_utf8 cp ++ rest) ≡ some (cp, 2)
unfolding encode_utf8
two_bytes cp rest lo hi =
    rw
      (
        le→ltb cp 0x80 lo,
        lt→ltb cp 0x800 hi,
        or_C0 (cp / 64) (omega arith),
        or_80 (cp % 64) (omega arith),
      )
      (decode_parts (0xC0 + cp / 64) 2 (cp / 64) cp ((0x80 + cp % 64) ∷ rest)
        (lead_two (cp / 64) (omega arith)) (omega arith) (omega arith)
        (continuation_step (cp / 64) (cp % 64) [] (omega arith)
          ∙ continuation_end (cp / 64 * 64 + cp % 64)
          ∙ ap some (omega arith))
        (unfold is_rejected in ground arith))

three_bytes :
    (cp : ℕ) (rest : Bytes)
    → 0x800 ≤ cp
    → cp < 0x10000
    → IsScalar cp
    → decode_utf8 (encode_utf8 cp ++ rest) ≡ some (cp, 3)
unfolding encode_utf8
three_bytes cp rest lo hi ok =
    rw
      (
        le→ltb cp 0x80 (omega arith),
        le→ltb cp 0x800 lo,
        lt→ltb cp 0x10000 hi,
        or_E0 (cp / 2 ^ 12) (omega arith),
        or_80 (cp / 2 ^ 6 % 64) (omega arith),
        or_80 (cp % 64) (omega arith),
      )
      (decode_parts (0xE0 + cp / 2 ^ 12) 3 (cp / 2 ^ 12) cp
        ((0x80 + cp / 2 ^ 6 % 64) ∷ (0x80 + cp % 64) ∷ rest)
        (lead_three (cp / 2 ^ 12) (omega arith)) (omega arith) (omega arith)
        (continuation_step (cp / 2 ^ 12) (cp / 2 ^ 6 % 64) ((0x80 + cp % 64) ∷ []) (omega arith)
          ∙ continuation_step (cp / 2 ^ 12 * 64 + cp / 2 ^ 6 % 64) (cp % 64) [] (omega arith)
          ∙ continuation_end ((cp / 2 ^ 12 * 64 + cp / 2 ^ 6 % 64) * 64 + cp % 64)
          ∙ ap some (omega arith))
        (unfold is_rejected in ground arith))

four_bytes :
    (cp : ℕ) (rest : Bytes)
    → 0x10000 ≤ cp
    → cp ≤ 0x10FFFF
    → decode_utf8 (encode_utf8 cp ++ rest) ≡ some (cp, 4)
unfolding encode_utf8
four_bytes cp rest lo hi =
    rw
      (
        le→ltb cp 0x80 (omega arith),
        le→ltb cp 0x800 (omega arith),
        le→ltb cp 0x10000 lo,
        or_F0 (cp / 2 ^ 18) (omega arith),
        or_80 (cp / 2 ^ 12 % 64) (omega arith),
        or_80 (cp / 2 ^ 6 % 64) (omega arith),
        or_80 (cp % 64) (omega arith),
      )
      (decode_parts (0xF0 + cp / 2 ^ 18) 4 (cp / 2 ^ 18) cp
        ((0x80 + cp / 2 ^ 12 % 64) ∷ (0x80 + cp / 2 ^ 6 % 64) ∷ (0x80 + cp % 64) ∷ rest)
        (lead_four (cp / 2 ^ 18) (omega arith)) (omega arith) (omega arith)
        (continuation_step (cp / 2 ^ 18) (cp / 2 ^ 12 % 64)
            ((0x80 + cp / 2 ^ 6 % 64) ∷ (0x80 + cp % 64) ∷ []) (omega arith)
          ∙ continuation_step (cp / 2 ^ 18 * 64 + cp / 2 ^ 12 % 64) (cp / 2 ^ 6 % 64)
              ((0x80 + cp % 64) ∷ []) (omega arith)
          ∙ continuation_step ((cp / 2 ^ 18 * 64 + cp / 2 ^ 12 % 64) * 64 + cp / 2 ^ 6 % 64)
              (cp % 64) [] (omega arith)
          ∙ continuation_end
              (((cp / 2 ^ 18 * 64 + cp / 2 ^ 12 % 64) * 64 + cp / 2 ^ 6 % 64) * 64 + cp % 64)
          ∙ ap some (omega arith))
        (unfold is_rejected in ground arith))

one_byte : (cp : ℕ) (rest : Bytes) → cp < 0x80 → decode_utf8 (encode_utf8 cp ++ rest) ≡ some (cp, 1)
unfolding encode_utf8 decode_utf8 decode_sequence lead
one_byte cp rest h = ground arith

length_one : (cp : ℕ) → cp < 0x80 → 1 ≡ length (encode_utf8 cp)
unfolding encode_utf8
length_one cp h = ground arith

length_two : (cp : ℕ) → 0x80 ≤ cp → cp < 0x800 → 2 ≡ length (encode_utf8 cp)
unfolding encode_utf8
length_two cp lo hi = ground arith

length_three : (cp : ℕ) → 0x800 ≤ cp → cp < 0x10000 → 3 ≡ length (encode_utf8 cp)
unfolding encode_utf8
length_three cp lo hi = ground arith

length_four : (cp : ℕ) → 0x10000 ≤ cp → 4 ≡ length (encode_utf8 cp)
unfolding encode_utf8
length_four cp lo = ground arith

-- Every Unicode scalar value that is encoded is decoded again from the front of any text, and the
-- decoder takes the bytes that the encoder wrote, one to four of them.
pub decode_utf8-encode_utf8 :
    (cp : ℕ) (rest : Bytes)
    → IsScalar cp
    → decode_utf8 (encode_utf8 cp ++ rest) ≡ some (cp, length (encode_utf8 cp))
decode_utf8-encode_utf8 cp rest h = elim (dec_lt cp 0x80) [
  | yes a ↦ one_byte cp rest a ∙ ap (λ (n : ℕ). some (cp, n)) (length_one cp a)
  | no a ↦ elim (dec_lt cp 0x800) [
    | yes b ↦
        two_bytes cp rest (omega arith) b
        ∙ ap (λ (n : ℕ). some (cp, n)) (length_two cp (omega arith) b)
    | no b ↦ elim (dec_lt cp 0x10000) [
      | yes c ↦
          three_bytes cp rest (omega arith) c h
          ∙ ap (λ (n : ℕ). some (cp, n)) (length_three cp (omega arith) c)
      | no c ↦
          four_bytes cp rest (omega arith) h.0
          ∙ ap (λ (n : ℕ). some (cp, n)) (length_four cp (omega arith))
    ]
  ]
]
