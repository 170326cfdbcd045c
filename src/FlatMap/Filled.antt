-- ===== src/FlatMap/Filled.antt =====
-- The slots of `U64Map` that are not empty, and the counter `used_`.
use wsldrive.Prelude.{
  ℕ, zero, suc, ◌+◌, ◌*◌, ◌≤◌, ◌≡◌, refl, Bool, not, List, [], ◌∷◌, length, null, arith, ltb, ◌==◌,
  Bool-cases, inl, inr, if◌then◌else◌, if_elim,
}
use wsldrive.FlatMap.{
  Slot, U64Map, empty_key, empty_slot, set_slot, blank, is_live, first_empty, home, reinsert,
  rehash, grow_if_needed,
}

-- The slots that no probe stops at: live ones and tombstones.
unfoldable pub is_filled : Slot → Bool
is_filled s = not (s.key == empty_key)

unfoldable pub count_filled : List Slot → ℕ
count_filled [] = 0
count_filled (s ∷ slots) = if is_filled s then suc (count_filled slots) else count_filled slots

filled_bit : Slot → ℕ
filled_bit s = if is_filled s then 1 else 0

filled_bit-le : (s : Slot) → filled_bit s ≤ 1
unfolding filled_bit
filled_bit-le s = if_elim (λ (n : ℕ). n ≤ 1) (is_filled s) 1 0 (λ _. omega arith) (λ _. omega arith)

count_filled-cons :
    (s : Slot) (slots : List Slot) → count_filled (s ∷ slots) ≡ filled_bit s + count_filled slots
unfolding count_filled filled_bit
count_filled-cons s slots = elim (Bool-cases (is_filled s)) [
  | inl b ↦ rw b (omega arith)
  | inr b ↦ rw b (omega arith)
]

-- Filling a slot fills one more at most.
count_filled-set_slot :
    (slots : List Slot) (i : ℕ) (s : Slot)
    → count_filled (set_slot slots i s) ≤ count_filled slots + 1
unfolding set_slot
count_filled-set_slot [] i s = omega arith
count_filled-set_slot (t ∷ slots) zero s =
    omega (arith, filled_bit-le s, count_filled-cons s slots, count_filled-cons t slots)
count_filled-set_slot (t ∷ slots) (suc i) s = omega (
  arith,
  count_filled-cons t (set_slot slots i s),
  count_filled-cons t slots,
  count_filled-set_slot slots i s,
)

count_filled-blank : (n : ℕ) → count_filled (blank n) ≡ 0
unfolding blank count_filled is_filled empty_slot empty_key
count_filled-blank zero = refl
count_filled-blank (suc n) = count_filled-blank n

-- What `used_` counts is no less than the filled slots.
abbrev pub IsCounted : U64Map → Type 0
IsCounted m = count_filled m.slots ≤ m.used

reinsert-IsCounted : (old : List Slot) (m : U64Map) → IsCounted m → IsCounted (reinsert old m)
unfolding reinsert
reinsert-IsCounted [] m h = h
reinsert-IsCounted (s ∷ old) m h =
    let at = first_empty (length m.slots) m.slots (home m.slots s.key) in
    let more : U64Map = record {
      slots = set_slot m.slots at s;
      size = m.size + 1;
      used = m.used + 1;
    } in
    if_elim IsCounted (not (is_live s)) (reinsert old m) (reinsert old more)
      (λ _. reinsert-IsCounted old m h)
      (λ _. reinsert-IsCounted old more (omega (arith, h, count_filled-set_slot m.slots at s)))

rehash-IsCounted : (m : U64Map) (cap : ℕ) → IsCounted (rehash m cap)
unfolding rehash
rehash-IsCounted m cap =
    reinsert-IsCounted m.slots (record { slots = blank cap; size = 0; used = 0 })
      (omega (arith, count_filled-blank cap))

pub grow_if_needed-IsCounted : (m : U64Map) → IsCounted m → IsCounted (grow_if_needed m)
unfolding grow_if_needed
grow_if_needed-IsCounted m h =
    if_elim IsCounted (null m.slots) _ _ (λ _. rehash-IsCounted m 16)
      (λ _.
        if_elim IsCounted (ltb (length m.slots * 3) ((m.used + 1) * 4)) _ _
          (λ _. rehash-IsCounted m _) (λ _. h))
