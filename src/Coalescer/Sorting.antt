-- ===== src/Coalescer/Sorting.antt =====
-- The two sorts of `take`: they lose no item and invent none, and leave the sequence numbers in order.
use wsldrive.Prelude.{
  ℕ, ◌≤◌, ◌≡◌, sym, Bool, List, [], ◌∷◌, arith, ltb, ◌↔◌, ◌⊎◌, inl, inr, if_elim, All, All_intro,
  All_of_In, In,
}
use mathlib.Core.Path.{subst}
use wsldrive.Coalescer.{insert_sorted, sort, Item, by_seq}

swap : (P Q X Y : Type 0) → X ↔ (P ⊎ Y) → (Q ⊎ X) ↔ (P ⊎ (Q ⊎ Y))
swap P Q X Y h = (forth, back)
  where
    forth : Q ⊎ X → P ⊎ (Q ⊎ Y)
    forth (inl q) = inr (inl q)
    forth (inr x) = elim (h.0 x) [ inl p ↦ inl p | inr y ↦ inr (inr y) ]

    back : P ⊎ (Q ⊎ Y) → Q ⊎ X
    back (inl p) = inr (h.1 (inl p))
    back (inr (inl q)) = inl q
    back (inr (inr y)) = inr (h.1 (inr y))

under : (P X Y Z : Type 0) → X ↔ (P ⊎ Y) → Y ↔ Z → X ↔ (P ⊎ Z)
under P X Y Z h k = (λ x. forth (h.0 x), λ z. h.1 (back z))
  where
    forth : P ⊎ Y → P ⊎ Z
    forth (inl p) = inl p
    forth (inr y) = inr (k.0 y)

    back : P ⊎ Z → P ⊎ Y
    back (inl p) = inl p
    back (inr z) = inr (k.1 z)

module _ {A : Type 0} (lt : A → A → Bool) where
  insert_sorted-In : (y x : A) (xs : List A) → In y (insert_sorted lt x xs) ↔ ((y ≡ x) ⊎ In y xs)
  unfolding insert_sorted
  insert_sorted-In y x [] = (λ h. h, λ h. h)
  insert_sorted-In y x (z ∷ zs) =
      if_elim (λ l. In y l ↔ ((y ≡ x) ⊎ In y (z ∷ zs))) (lt x z) _ _ (λ e. (λ h. h, λ h. h))
        (λ e. swap (y ≡ x) (y ≡ z) _ _ (insert_sorted-In y x zs))

  pub sort-In : (y : A) (xs : List A) → In y (sort lt xs) ↔ In y xs
  unfolding sort
  sort-In y [] = (λ h. h, λ h. h)
  sort-In y (x ∷ xs) = under (y ≡ x) _ _ _ (insert_sorted-In y x (sort lt xs)) (sort-In y xs)

-- The sequence numbers do not fall.
abbrev pub Ordered : List Item → Type 0
Ordered [] = Unit
Ordered (x ∷ xs) = All (λ y. x.1.seq ≤ y.1.seq) xs × Ordered xs

All_le_trans :
    (m n : ℕ) (xs : List Item) → m ≤ n → All (λ y. n ≤ y.1.seq) xs → All (λ y. m ≤ y.1.seq) xs
All_le_trans m n [] le h = tt
All_le_trans m n (x ∷ xs) le h = (omega (arith, h.0), All_le_trans m n xs le h.1)

All-insert_sorted :
    (n : ℕ) (x : Item) (xs : List Item)
    → n ≤ x.1.seq
    → All (λ y. n ≤ y.1.seq) xs
    → All (λ y. n ≤ y.1.seq) (insert_sorted by_seq x xs)
All-insert_sorted n x xs le h = All_intro _ (insert_sorted by_seq x xs) (λ y m.
    elim ((insert_sorted-In by_seq y x xs).0 m) [
      | inl e ↦ subst (λ z. n ≤ z.1.seq) (sym e) le
      | inr k ↦ All_of_In (λ z. n ≤ z.1.seq) y xs h k
    ])

insert_sorted-Ordered :
    (x : Item) (xs : List Item) → Ordered xs → Ordered (insert_sorted by_seq x xs)
unfolding insert_sorted by_seq
insert_sorted-Ordered x [] h = (tt, tt)
insert_sorted-Ordered x (y ∷ ys) h =
    if_elim Ordered (ltb x.1.seq y.1.seq) _ _
      (λ e.
        let le : x.1.seq ≤ y.1.seq = ground arith in
        ((le, All_le_trans x.1.seq y.1.seq ys le h.0), h))
      (λ e. (
        unfold by_seq in All-insert_sorted y.1.seq x ys (ground arith) h.0,
        insert_sorted-Ordered x ys h.1,
      ))

pub sort-Ordered : (xs : List Item) → Ordered (sort by_seq xs)
unfolding sort
sort-Ordered [] = tt
sort-Ordered (x ∷ xs) = insert_sorted-Ordered x (sort by_seq xs) (sort-Ordered xs)
