-- ===== src/WinNames/RoundTrip.antt =====
-- `unescape_from_windows` undoes `escape_for_windows` on the names that hold no private-use
-- character of their own, and on those alone among the names that begin with one.
use mathlib.Core.Path.{subst}
use wsldrive.Prelude.{
  ℕ, ◌+◌, ◌%◌, ◌/◌, ◌<◌, ◌≡◌, ◌≢◌, refl, sym, ap, ◌∙◌, inl, inr, [], ◌∷◌, ◌++◌, Bytes, IsByte, All,
  arith, Bool-cases, none,
}
use wsldrive.WinNames.{decode_private, escape_loop, escape_for_windows, unescape_from_windows}
use wsldrive.WinNames.Bytes3.{private_use, decode-private_use, decode_second, decode_third}
use wsldrive.WinNames.Safe.{
  escaped, loop_escaped, loop_plain, high_plain, escape_for_windows-escape_loop,
}

-- No three bytes in a row are read as an escape.
abbrev pub Clean : Bytes → Type 0
Clean [] = Unit {0}
Clean (a ∷ []) = Unit {0}
Clean (a ∷ b ∷ []) = Unit {0}
Clean (a ∷ b ∷ c ∷ s) = (decode_private a b c ≡ none) × Clean (b ∷ c ∷ s)

-- The first byte stands for itself.
abbrev Plain : ℕ → Bytes → Type 0
Plain b [] = Unit {0}
Plain b (x ∷ []) = Unit {0}
Plain b (x ∷ y ∷ s) = decode_private b x y ≡ none

unescape-Plain :
    (b : ℕ) (out : Bytes)
    → Plain b out
    → unescape_from_windows (b ∷ out) ≡ b ∷ unescape_from_windows out
unfolding unescape_from_windows
unescape-Plain b [] h = refl
unescape-Plain b (x ∷ []) h = refl
unescape-Plain b (x ∷ y ∷ s) h = rw (h, unescape_from_windows)

unescape_escaped :
    (b : ℕ) (out : Bytes)
    → b < 256
    → unescape_from_windows (private_use b ++ out) ≡ b ∷ unescape_from_windows out
unfolding unescape_from_windows
unescape_escaped b out h = rw (decode-private_use b h, unescape_from_windows)

no_second : (b x : ℕ) → decode_private b 0xEF x ≡ none
no_second b x = decode_second b 0xEF x (omega arith)

no_third : (b c : ℕ) → decode_private b c 0xEF ≡ none
no_third b c = decode_third b c 0xEF (omega arith)

-- A raw byte stays plain in front of the escaped rest.
Plain-third : (b c : ℕ) (s : Bytes) → All IsByte s → Clean (b ∷ c ∷ s) → Plain b (c ∷ escape_loop s)
Plain-third b c [] h k = unfold escape_loop in tt
Plain-third b c (d ∷ s) h k = elim (Bool-cases (escaped d s)) [
  | inl e ↦ subst (λ t. Plain b (c ∷ t)) (sym (loop_escaped d s h.0 e)) (no_third b c)
  | inr e ↦ subst (λ t. Plain b (c ∷ t)) (sym (loop_plain d s e)) k.0
]

Plain-before : (b : ℕ) (s : Bytes) → All IsByte s → Clean (b ∷ s) → Plain b (escape_loop s)
Plain-before b [] h k = unfold escape_loop in tt
Plain-before b (c ∷ s) h k = elim (Bool-cases (escaped c s)) [
  | inl e ↦ subst (Plain b) (sym (loop_escaped c s h.0 e)) (no_second b (128 + c / 64))
  | inr e ↦ subst (Plain b) (sym (loop_plain c s e)) (Plain-third b c s h.1 k)
]

Clean-tail : (b : ℕ) (s : Bytes) → Clean (b ∷ s) → Clean s
Clean-tail b [] k = tt
Clean-tail b (c ∷ []) k = tt
Clean-tail b (c ∷ d ∷ s) k = k.1

unescape-escape_loop :
    (s : Bytes) → All IsByte s → Clean s → unescape_from_windows (escape_loop s) ≡ s
unescape-escape_loop [] h k = unfold escape_loop unescape_from_windows in refl
unescape-escape_loop (b ∷ s) h k = elim (Bool-cases (escaped b s)) [
  | inl e ↦
      ap unescape_from_windows (loop_escaped b s h.0 e)
      ∙ unescape_escaped b _ h.0
      ∙ ap (◌∷◌ b) (unescape-escape_loop s h.1 (Clean-tail b s k))
  | inr e ↦
      ap unescape_from_windows (loop_plain b s e)
      ∙ unescape-Plain b (escape_loop s) (Plain-before b s h.1 k)
      ∙ ap (◌∷◌ b) (unescape-escape_loop s h.1 (Clean-tail b s k))
]

-- The shown name of every raw name with no private-use sequence of its own is read back as that
-- raw name.
pub unescape_from_windows-escape_for_windows :
    (raw : Bytes)
    → All IsByte raw
    → Clean raw
    → unescape_from_windows (escape_for_windows raw) ≡ raw
unescape_from_windows-escape_for_windows raw h k =
    ap unescape_from_windows (escape_for_windows-escape_loop raw) ∙ unescape-escape_loop raw h k

-- A raw name that begins with the private-use character of a byte is shown unchanged.
shown_private_use :
    (b : ℕ) (s : Bytes)
    → b < 256
    → escape_loop (private_use b ++ s) ≡ private_use b ++ escape_loop s
shown_private_use b s h =
    loop_plain 0xEF _ (high_plain 0xEF ((128 + b / 64) ∷ (128 + b % 64) ∷ s) (omega arith))
    ∙ ap (◌∷◌ 0xEF) (
        loop_plain (128 + b / 64) _ (high_plain (128 + b / 64) ((128 + b % 64) ∷ s) (omega arith))
        ∙ ap (◌∷◌ (128 + b / 64))
            (loop_plain (128 + b % 64) s (high_plain (128 + b % 64) s (omega arith))))

-- The mapping is not invertible: a raw name that begins with the private-use character of a byte
-- `b`, other than 0xEF, is read back as a different name.
pub unescape_changes_private_use :
    (b : ℕ) (s : Bytes)
    → b < 256
    → b ≢ 0xEF
    → unescape_from_windows (escape_for_windows (private_use b ++ s)) ≢ private_use b ++ s
unescape_changes_private_use b s h other e =
    let first : b ∷ unescape_from_windows (escape_loop s) ≡ private_use b ++ s =
      sym (unescape_escaped b (escape_loop s) h)
      ∙ sym (
          ap unescape_from_windows
            (escape_for_windows-escape_loop (private_use b ++ s) ∙ shown_private_use b s h))
      ∙ e in
    other (cc)
