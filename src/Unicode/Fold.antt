-- ===== src/Unicode/Fold.antt =====
-- Folding a code point twice is folding it once, and folding stays inside Unicode.
use wsldrive.Prelude.{
  ℕ, zero, suc, ◌+◌, ◌≤◌, ◌<◌, ◌≡◌, refl, ap, true, ◌&&◌, [], ◌∷◌, Bytes, map, length, arith, leb,
  ltb, leb→le, &&_iff, ◌⊎◌, inl, if◌then◌else◌,
}
use wsldrive.Prelude.Bits.{holds_below, holds_below_lem, eq_below}
use native.Mathlib.Decide.{dec_lt}
use wsldrive.Unicode.{
  casefold_codepoint, fold_extended, is_ascii, casefold_loop, casefold, casefold_append,
}

fold_low :
    (cp : ℕ) → cp < 0x460 → casefold_codepoint (casefold_codepoint cp) ≡ casefold_codepoint cp
unfolding holds_below casefold_codepoint fold_extended
fold_low =
    eq_below 0x460 (λ cp. casefold_codepoint (casefold_codepoint cp)) (λ cp. casefold_codepoint cp)
      refl

pub fold_high : (cp : ℕ) → 0x430 ≤ cp → casefold_codepoint cp ≡ cp
unfolding casefold_codepoint
fold_high cp h = ground arith

-- Case folding is idempotent on every code point, the irregular letters of Latin Extended-A
-- included.
pub casefold_codepoint_idempotent :
    (cp : ℕ) → casefold_codepoint (casefold_codepoint cp) ≡ casefold_codepoint cp
casefold_codepoint_idempotent cp = elim (dec_lt cp 0x460) [
  | yes low ↦ fold_low cp low
  | no high ↦ ap casefold_codepoint (fold_high cp (omega arith))
]

-- A Unicode scalar value: no surrogate, at most U+10FFFF.
abbrev pub IsScalar : ℕ → Type 0
IsScalar cp = (cp ≤ 0x10FFFF) × ((cp < 0xD800) ⊎ (0xDFFF < cp))

low_table : (cp : ℕ) → cp < 0x460 → leb (casefold_codepoint cp) 0x460 ≡ true
unfolding holds_below casefold_codepoint fold_extended
low_table cp h = holds_below_lem (λ c. leb (casefold_codepoint c) 0x460) 0x460 cp h refl

pub casefold_codepoint-IsScalar : (cp : ℕ) → IsScalar cp → IsScalar (casefold_codepoint cp)
casefold_codepoint-IsScalar cp h = elim (dec_lt cp 0x460) [
  | yes low ↦ (
    omega (arith, leb→le _ _ (low_table cp low)),
    inl (omega (arith, leb→le _ _ (low_table cp low))),
  )
  | no high ↦ rw (fold_high cp (omega arith)) h
]

abbrev pub lower : ℕ → ℕ
lower b = if leb b'A' b && leb b b'Z' then b + 0x20 else b

ascii_loop :
    (fuel : ℕ) (s : Bytes)
    → length s ≤ fuel
    → is_ascii s ≡ true
    → casefold_loop fuel s ≡ map lower s
unfolding casefold_loop is_ascii
ascii_loop zero [] hf h = refl
ascii_loop (suc fuel) [] hf h = refl
ascii_loop zero (b ∷ s) hf h = absurd (omega arith)
ascii_loop (suc fuel) (b ∷ s) hf h = rw (((&&_iff (ltb b 0x80) (is_ascii s)).0 h).0) (
    ap (◌∷◌ (lower b)) (ascii_loop fuel s (omega arith) ((&&_iff (ltb b 0x80) (is_ascii s)).0 h).1))

-- An ASCII name is folded byte by byte: 'A' to 'Z' become lower case, nothing else changes.
pub casefold_ascii : (s : Bytes) → is_ascii s ≡ true → casefold s ≡ map lower s
unfolding casefold casefold_append
casefold_ascii s h = ascii_loop (length s) s (omega arith) h
