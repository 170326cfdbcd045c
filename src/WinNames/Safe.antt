-- ===== src/WinNames/Safe.antt =====
-- What `escape_for_windows` returns: the loop's output, which Windows accepts as a name.
use wsldrive.Prelude.{
  ℕ, ◌+◌, ◌%◌, ◌/◌, ◌≤◌, ◌<◌, ◌≡◌, refl, sym, ap, ◌∙◌, inl, inr, Bool, true, false, ◌&&◌, ◌||◌, [],
  ◌∷◌, ◌++◌, Bytes, IsByte, All, null, arith, Bool-cases,
}
use wsldrive.WinNames.{
  is_reserved, is_dot_or_space, any_reserved, ends_badly, needs_escaping, escape_loop,
  escape_for_windows,
}
use wsldrive.WinNames.Bytes3.{private_use, encode-private_use, high_unreserved, high_no_dot}

-- The test on a byte, with what follows it.
abbrev pub escaped : ℕ → Bytes → Bool
escaped b s = is_reserved b || (null s && is_dot_or_space b)

pub loop_escaped :
    (b : ℕ) (s : Bytes)
    → b < 256
    → escaped b s ≡ true
    → escape_loop (b ∷ s) ≡ private_use b ++ escape_loop s
unfolding escape_loop
loop_escaped b s h e = rw (e, encode-private_use b h)

pub loop_plain : (b : ℕ) (s : Bytes) → escaped b s ≡ false → escape_loop (b ∷ s) ≡ b ∷ escape_loop s
unfolding escape_loop
loop_plain b s e = rw e

pub high_plain : (b : ℕ) (s : Bytes) → 128 ≤ b → escaped b s ≡ false
high_plain b s h = rw (high_unreserved b h, high_no_dot b h) (ground arith)

unescaped_unreserved : (b : ℕ) (s : Bytes) → escaped b s ≡ false → is_reserved b ≡ false
unescaped_unreserved b s e = ground arith

last_no_dot : (b : ℕ) → escaped b [] ≡ false → is_dot_or_space b ≡ false
last_no_dot b e = ground arith

any_reserved-private_use :
    (b : ℕ) (out : Bytes) → any_reserved (private_use b ++ out) ≡ any_reserved out
unfolding any_reserved
any_reserved-private_use b out = rw (
  high_unreserved 0xEF (omega arith),
  high_unreserved (128 + b / 64) (omega arith),
  high_unreserved (128 + b % 64) (omega arith),
)

any_reserved_plain :
    (b : ℕ) (out : Bytes) → is_reserved b ≡ false → any_reserved (b ∷ out) ≡ any_reserved out
unfolding any_reserved
any_reserved_plain b out e = rw e

any_reserved-escape_loop : (s : Bytes) → All IsByte s → any_reserved (escape_loop s) ≡ false
any_reserved-escape_loop [] h = unfold escape_loop any_reserved in refl
any_reserved-escape_loop (b ∷ s) h = elim (Bool-cases (escaped b s)) [
  | inl e ↦
      ap any_reserved (loop_escaped b s h.0 e)
      ∙ any_reserved-private_use b (escape_loop s)
      ∙ any_reserved-escape_loop s h.1
  | inr e ↦
      ap any_reserved (loop_plain b s e)
      ∙ any_reserved_plain b (escape_loop s) (unescaped_unreserved b s e)
      ∙ any_reserved-escape_loop s h.1
]

ends_badly-append :
    (xs : Bytes) (y : ℕ) (ys : Bytes) → ends_badly (xs ++ (y ∷ ys)) ≡ ends_badly (y ∷ ys)
unfolding ends_badly
ends_badly-append [] y ys = refl
ends_badly-append (x ∷ []) y ys = refl
ends_badly-append (x ∷ z ∷ xs) y ys = ends_badly-append (z ∷ xs) y ys

loop_nonempty :
    (b : ℕ) (s : Bytes) → b < 256 → (y : ℕ) × (ys : Bytes) × (escape_loop (b ∷ s) ≡ y ∷ ys)
loop_nonempty b s h = elim (Bool-cases (escaped b s)) [
  | inl e ↦ (0xEF, _, loop_escaped b s h e)
  | inr e ↦ (b, _, loop_plain b s e)
]

ends_badly-unit :
    (unit : Bytes) (b : ℕ) (s : Bytes)
    → b < 256
    → ends_badly (unit ++ escape_loop (b ∷ s)) ≡ ends_badly (escape_loop (b ∷ s))
ends_badly-unit unit b s h =
    let (y, ys, e) = loop_nonempty b s h in rw e (ends_badly-append unit y ys)

ends_badly-private_use : (b : ℕ) → ends_badly (private_use b) ≡ false
unfolding ends_badly
ends_badly-private_use b = high_no_dot (128 + b % 64) (omega arith)

ends_badly-escape_loop : (s : Bytes) → All IsByte s → ends_badly (escape_loop s) ≡ false
ends_badly-escape_loop [] h = unfold escape_loop ends_badly in refl
ends_badly-escape_loop (b ∷ []) h = elim (Bool-cases (escaped b [])) [
  | inl e ↦ ap ends_badly (loop_escaped b [] h.0 e) ∙ unfold escape_loop in ends_badly-private_use b
  | inr e ↦ ap ends_badly (loop_plain b [] e) ∙ unfold escape_loop ends_badly in last_no_dot b e
]
ends_badly-escape_loop (b ∷ c ∷ s) h = elim (Bool-cases (escaped b (c ∷ s))) [
  | inl e ↦
      ap ends_badly (loop_escaped b (c ∷ s) h.0 e)
      ∙ ends_badly-unit (private_use b) c s h.1.0
      ∙ ends_badly-escape_loop (c ∷ s) h.1
  | inr e ↦
      ap ends_badly (loop_plain b (c ∷ s) e)
      ∙ ends_badly-unit (b ∷ []) c s h.1.0
      ∙ ends_badly-escape_loop (c ∷ s) h.1
]

-- On a name that needs no escaping the loop would copy it.
loop_id : (s : Bytes) → any_reserved s ≡ false → ends_badly s ≡ false → escape_loop s ≡ s
unfolding escape_loop any_reserved ends_badly
loop_id [] r e = refl
loop_id (b ∷ []) r e = ground arith
loop_id (b ∷ c ∷ s) r e = ground (arith, loop_id (c ∷ s))

pub escape_for_windows-escape_loop : (raw : Bytes) → escape_for_windows raw ≡ escape_loop raw
unfolding escape_for_windows
escape_for_windows-escape_loop raw = elim (Bool-cases (needs_escaping raw)) [
  | inl e ↦ rw e
  | inr e ↦ rw e (unfold needs_escaping in sym (loop_id raw (ground arith) (ground arith)))
]

-- No shown name needs escaping: it holds no character that Windows reserves, and ends in neither
-- '.' nor ' '.
pub needs_escaping-escape_for_windows :
    (raw : Bytes) → All IsByte raw → needs_escaping (escape_for_windows raw) ≡ false
unfolding needs_escaping
needs_escaping-escape_for_windows raw h = rw (
  escape_for_windows-escape_loop raw,
  any_reserved-escape_loop raw h,
  ends_badly-escape_loop raw h,
)
