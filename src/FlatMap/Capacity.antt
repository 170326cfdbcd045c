-- ===== src/FlatMap/Capacity.antt =====
-- The load factor of `U64Map`: growing and reserving leave room for the probes to end.
use wsldrive.Prelude.{
  ℕ, zero, suc, ◌+◌, ◌*◌, ◌≤◌, ◌≡◌, refl, ap, ◌∙◌, ◌⊎◌, inl, inr, Bool, true, false, not, List, [],
  ◌∷◌, length, null, arith, ltb, if◌then◌else◌, if_elim,
}
use wsldrive.FlatMap.Filled.{count_filled, grow_if_needed-IsCounted}
use wsldrive.FlatMap.{
  Slot, U64Map, set_slot, blank, is_live, first_empty, home, reinsert, rehash, grow_if_needed,
  grown_cap, reserve,
}

length-set_slot :
    (slots : List Slot) (i : ℕ) (s : Slot) → length (set_slot slots i s) ≡ length slots
unfolding set_slot
length-set_slot [] i s = refl
length-set_slot (t ∷ slots) zero s = refl
length-set_slot (t ∷ slots) (suc i) s = ap suc (length-set_slot slots i s)

length-blank : (n : ℕ) → length (blank n) ≡ n
unfolding blank
length-blank zero = refl
length-blank (suc n) = ap suc (length-blank n)

unfoldable pub count_live : List Slot → ℕ
count_live [] = 0
count_live (s ∷ slots) = if is_live s then suc (count_live slots) else count_live slots

count_live-length : (slots : List Slot) → count_live slots ≤ length slots
unfolding count_live
count_live-length [] = omega arith
count_live-length (s ∷ slots) =
    let rest = count_live-length slots in
    if_elim (λ (n : ℕ). n ≤ suc (length slots)) (is_live s) _ _ (λ e. omega (arith, rest))
      (λ e. omega (arith, rest))

length-reinsert : (old : List Slot) (m : U64Map) → length (reinsert old m).slots ≡ length m.slots
unfolding reinsert
length-reinsert [] m = refl
length-reinsert (s ∷ old) m =
    let skipped = length-reinsert old m in
    let slots = set_slot m.slots (first_empty (length m.slots) m.slots (home m.slots s.key)) s in
    let placed =
      length-reinsert old (record { slots = slots; size = m.size + 1; used = m.used + 1 }) in
    if_elim (λ (r : U64Map). length r.slots ≡ length m.slots) (not (is_live s)) _ _ (λ e. skipped)
      (λ e.
        placed
        ∙ length-set_slot m.slots (first_empty (length m.slots) m.slots (home m.slots s.key)) s)

used_if :
    (live : Bool) (skipped placed : U64Map) (used rest : ℕ)
    → skipped.used ≡ used + rest
    → placed.used ≡ used + suc rest
    → (if not live then skipped else placed).used ≡ used + (if live then suc rest else rest)
used_if true skipped placed used rest h k = k
used_if false skipped placed used rest h k = h

used-reinsert : (old : List Slot) (m : U64Map) → (reinsert old m).used ≡ m.used + count_live old
unfolding reinsert count_live
used-reinsert [] m = omega arith
used-reinsert (s ∷ old) m =
    let skipped = used-reinsert old m in
    let slots = set_slot m.slots (first_empty (length m.slots) m.slots (home m.slots s.key)) s in
    let placed =
      used-reinsert old (record { slots = slots; size = m.size + 1; used = m.used + 1 }) in
    used_if (is_live s) (reinsert old m) _ m.used (count_live old) skipped (placed ∙ omega arith)

length-rehash : (m : U64Map) (cap : ℕ) → length (rehash m cap).slots ≡ cap
unfolding rehash
length-rehash m slots =
    length-reinsert m.slots (record { slots = blank slots; size = 0; used = 0 })
    ∙ length-blank slots

used-rehash : (m : U64Map) (cap : ℕ) → (rehash m cap).used ≡ count_live m.slots
unfolding rehash
used-rehash m slots =
    used-reinsert m.slots (record { slots = blank slots; size = 0; used = 0 }) ∙ omega arith

grown_cap_lem :
    (fuel n cap : ℕ) → 16 ≤ cap → n * 4 ≤ cap * 3 + fuel * 48 → n * 4 ≤ grown_cap fuel n cap * 3
unfolding grown_cap
grown_cap_lem zero n cap big h = omega arith
grown_cap_lem (suc fuel) n cap big h =
    let rest = grown_cap_lem fuel n (cap * 2) (omega arith) (omega arith) in
    if_elim (λ (c : ℕ). n * 4 ≤ c * 3) (ltb (cap * 3) (n * 4)) _ _ (λ e. rest) (λ e. ground arith)

-- After `reserve`, `n` keys fill at most three quarters of the slots.
pub reserve-capacity : (m : U64Map) (n : ℕ) → n * 4 ≤ length (reserve m n).slots * 3
unfolding reserve
reserve-capacity m n =
    let grown = grown_cap_lem n n 16 (omega arith) (omega arith) in
    if_elim (λ (r : U64Map). n * 4 ≤ length r.slots * 3) (ltb (length m.slots) (grown_cap n n 16)) _
      _ (λ e. omega (arith, grown, length-rehash m (grown_cap n n 16)))
      (λ e. let wide : grown_cap n n 16 ≤ length m.slots = ground arith in omega (arith, grown))

count_none : (slots : List Slot) → null slots ≡ true → count_live slots ≡ 0
unfolding count_live
count_none [] h = refl
count_none (s ∷ slots) h = absurd (cc)

two_slots :
    (slots : List Slot) → null slots ≡ false → (slots ≡ []) ⊎ (2 ≤ length slots) → 2 ≤ length slots
two_slots slots h (inl e) = absurd (let same = ap null e in cc)
two_slots slots h (inr le) = le

-- What the counter says.
grow_if_needed-used :
    (m : U64Map)
    → m.size ≡ count_live m.slots
    → (m.slots ≡ []) ⊎ (2 ≤ length m.slots)
    → ((grow_if_needed m).used + 1) * 4 ≤ length (grow_if_needed m).slots * 3
unfolding grow_if_needed
grow_if_needed-used m counted wide =
    if_elim (λ (r : U64Map). (r.used + 1) * 4 ≤ length r.slots * 3) (null m.slots) _ _
      (λ e. omega (arith, used-rehash m 16, length-rehash m 16, count_none m.slots e))
      (λ e.
        if_elim (λ (r : U64Map). (r.used + 1) * 4 ≤ length r.slots * 3)
          (ltb (length m.slots * 3) ((m.used + 1) * 4)) _ _
          (λ full. rehashed (two_slots m.slots e wide)) (λ room. ground arith))
  where
    rehashed :
        2 ≤ length m.slots
        → ((rehash m (
                if ltb (length m.slots) ((m.size + 1) * 2)
                then length m.slots * 2
                else length m.slots)).used
              + 1)
            * 4
          ≤ length
              (rehash m (
                if ltb (length m.slots) ((m.size + 1) * 2)
                then length m.slots * 2
                else length m.slots)).slots
            * 3
    rehashed two =
        if_elim (λ (n : ℕ). ((rehash m n).used + 1) * 4 ≤ length (rehash m n).slots * 3)
          (ltb (length m.slots) ((m.size + 1) * 2)) _ _
          (λ e. omega (
            arith,
            two,
            used-rehash m (length m.slots * 2),
            length-rehash m (length m.slots * 2),
            count_live-length m.slots,
          ))
          (λ e.
            let small : (m.size + 1) * 2 ≤ length m.slots = ground arith in
            omega (
              arith,
              small,
              counted,
              used-rehash m (length m.slots),
              length-rehash m (length m.slots),
            ))

-- In a map whose size is the number of its live slots, whose counter of used slots covers the live
-- slots and the tombstones, and that has no slots or two at least: after `grow_if_needed` the counter
-- still covers them, and with one more slot filled a quarter of the slots is empty.
pub grow_if_needed-load :
    (m : U64Map)
    → m.size ≡ count_live m.slots
    → count_filled m.slots ≤ m.used
    → (m.slots ≡ []) ⊎ (2 ≤ length m.slots)
    → (count_filled (grow_if_needed m).slots ≤ (grow_if_needed m).used)
      × ((count_filled (grow_if_needed m).slots + 1) * 4 ≤ length (grow_if_needed m).slots * 3)
grow_if_needed-load m counted filled wide =
    let covers = grow_if_needed-IsCounted m filled in
    (covers, omega (arith, covers, grow_if_needed-used m counted wide))
