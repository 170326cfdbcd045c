-- ===== src/Coalescer/Batch.antt =====
-- `take`: what the batch has of the pending map.
use wsldrive.Prelude.{
  ◌≤◌, ◌≡◌, refl, Bool, true, false, not, ◌&&◌, List, [], ◌∷◌, map, arith, ltb, null, ◌⊎◌, inl, inr,
  if_elim, if◌then◌else◌, In, Option, none, some, Bytes,
}
use wsldrive.Types.{InvalidationKind, is_move}
use wsldrive.Paths.{path_is_under}
use wsldrive.Coalescer.{
  Item, PlannedOp, Coalescer, sort, by_seq, by_path, is_remove, keep_items, to_op, repair_op,
  repair_move_pairs, any_half, batch, take, degrade, is_paired,
}
use wsldrive.Coalescer.Sorting.{sort-In, Ordered, sort-Ordered}

-- The second item is a removal that makes the first one superfluous.
abbrev pub IsCovered : Item → Item → Type 0
IsCovered it d =
    (is_remove d.1.kind ≡ true) × (path_is_under it.0 d.0 ≡ true) × (it.1.seq ≤ d.1.seq)

abbrev removal : Option Item → Bool
removal none = true
removal (some d) = is_remove d.1.kind

-- An item is in the list, or covered by a removal that is in it or is the directory passed over.
abbrev IsKept : Option Item → List Item → Item → Type 0
IsKept dir l it = In it l ⊎ ((d : Item) × ((dir ≡ some d) ⊎ In d l) × IsCovered it d)

abbrev next_dir : Item → Option Item
next_dir x = if is_remove x.1.kind then some x else none

removal-next_dir : (x : Item) → removal (next_dir x) ≡ true
removal-next_dir x = if_elim (λ o. removal o ≡ true) (is_remove x.1.kind) _ _ (λ e. e) (λ e. refl)

next_dir-some : (x d : Item) → next_dir x ≡ some d → d ≡ x
next_dir-some x d =
    if_elim (λ o. o ≡ some d → d ≡ x) (is_remove x.1.kind) _ _ (λ e h. cc) (λ e h. absurd (cc))

keep_next :
    (dir : Option Item) (x it : Item) (l : List Item)
    → IsKept (next_dir x) l it
    → IsKept dir (x ∷ l) it
keep_next dir x it l (inl m) = inl (inr m)
keep_next dir x it l (inr (d, inl e, covered)) = inr (d, inr (inl (next_dir-some x d e)), covered)
keep_next dir x it l (inr (d, inr m, covered)) = inr (d, inr (inr m), covered)

keep_more :
    (dir : Option Item) (x it : Item) (l : List Item) → IsKept dir l it → IsKept dir (x ∷ l) it
keep_more dir x it l (inl m) = inl (inr m)
keep_more dir x it l (inr (d, inl e, covered)) = inr (d, inl e, covered)
keep_more dir x it l (inr (d, inr m, covered)) = inr (d, inr (inr m), covered)

keep_items-IsKept :
    (dir : Option Item) (it : Item) (its : List Item)
    → removal dir ≡ true
    → In it its
    → IsKept dir (keep_items dir its) it
unfolding keep_items is_remove
keep_items-IsKept dir it [] ok m = absurd m
keep_items-IsKept none it (x ∷ xs) ok (inl e) = inl (inl e)
keep_items-IsKept none it (x ∷ xs) ok (inr m) =
    keep_next none x it _ (keep_items-IsKept (next_dir x) it xs (removal-next_dir x) m)
keep_items-IsKept (some d) it (x ∷ xs) ok m =
    let below : In it xs → IsKept (some d) (keep_items (some d) xs) it =
      λ k. keep_items-IsKept (some d) it xs ok k in
    let beyond : In it xs → IsKept (next_dir x) (keep_items (next_dir x) xs) it =
      λ k. keep_items-IsKept (next_dir x) it xs (removal-next_dir x) k in
    if_elim (λ l. IsKept (some d) l it) (path_is_under x.0 d.0) _ _
      (λ u.
        if_elim (λ l. IsKept (some d) l it) (ltb d.1.seq x.1.seq) _ _
          (λ n. elim m [ inl e ↦ inl (inl e) | inr k ↦ keep_more (some d) x it _ (below k) ])
          (λ n. elim m [
            | inl e ↦ inr (d, inl refl, (ok, rw e u, rw e (ground arith)))
            | inr k ↦ below k
          ]))
      (λ u. elim m [ inl e ↦ inl (inl e) | inr k ↦ keep_next (some d) x it _ (beyond k) ])

pub keep_items-In :
    (dir : Option Item) (it : Item) (its : List Item) → In it (keep_items dir its) → In it its
unfolding keep_items is_remove
keep_items-In dir it [] m = m
keep_items-In none it (x ∷ xs) (inl e) = inl e
keep_items-In none it (x ∷ xs) (inr m) = inr (keep_items-In (next_dir x) it xs m)
keep_items-In (some d) it (x ∷ xs) m =
    let below : In it (keep_items (some d) xs) → In it xs = λ k. keep_items-In (some d) it xs k in
    let beyond : In it (keep_items (next_dir x) xs) → In it xs =
      λ k. keep_items-In (next_dir x) it xs k in
    let split : In it (keep_items (some d) (x ∷ xs)) → In it (x ∷ xs) =
      if_elim (λ l. In it l → In it (x ∷ xs)) (path_is_under x.0 d.0) _ _
        (λ u.
          if_elim (λ l. In it l → In it (x ∷ xs)) (ltb d.1.seq x.1.seq) _ _
            (λ n k. elim k [ inl e ↦ inl e | inr j ↦ inr (below j) ]) (λ n k. inr (below k)))
        (λ u k. elim k [ inl e ↦ inl e | inr j ↦ inr (beyond j) ]) in
    split m

-- What the repair of the moves leaves of an operation.
abbrev pub shape : PlannedOp → Bytes × InvalidationKind × Bool
shape op = (op.path, op.kind, op.appeared)

shape-repair_op : (ops : List PlannedOp) (op : PlannedOp) → shape (repair_op ops op) ≡ shape op
unfolding repair_op degrade
shape-repair_op ops op =
    if_elim (λ o. shape o ≡ shape op) (is_move op.change && not (is_paired ops op)) _ _ (λ e. refl)
      (λ e. refl)

shape-map : (ops l : List PlannedOp) → map shape (map (repair_op ops) l) ≡ map shape l
shape-map ops [] = refl
shape-map ops (op ∷ l) = rw (shape-repair_op ops op, shape-map ops l) refl

shape-repair_move_pairs : (ops : List PlannedOp) → map shape (repair_move_pairs ops) ≡ map shape ops
unfolding repair_move_pairs
shape-repair_move_pairs ops =
    if_elim (λ l. map shape l ≡ map shape ops) (any_half ops) _ _ (λ e. shape-map ops ops)
      (λ e. refl)

-- The operations stand for entries of the pending map, in the order of their last events, and an
-- entry without an operation lies at or below a removal that has one and is not older.
pub record IsPlan (pending : List Item) (ops : List PlannedOp) : Type 0 where
  pub kept : List Item
  pub ordered : Ordered kept
  pub shapes : map shape ops ≡ map shape (map to_op kept)
  pub genuine : (it : Item) → In it kept → In it pending
  pub complete :
      (it : Item) → In it pending → In it kept ⊎ ((d : Item) × In d kept × IsCovered it d)

-- Every item of the batch is one that was pending.
pub planned-In :
    (it : Item) (items : List Item)
    → In it (sort by_seq (keep_items none (sort by_path items)))
    → In it items
planned-In it items m = (sort-In by_path it items).0 (
    keep_items-In none it (sort by_path items)
      ((sort-In by_seq it (keep_items none (sort by_path items))).0 m))

batch-IsPlan : (items : List Item) → IsPlan items (batch items)
unfolding batch
batch-IsPlan items = record {
  kept = sort by_seq (keep_items none (sort by_path items));
  ordered = sort-Ordered (keep_items none (sort by_path items));
  shapes = shape-repair_move_pairs (map to_op (sort by_seq (keep_items none (sort by_path items))));
  genuine = λ it m. planned-In it items m;
  complete = λ it m.
      back it
        (keep_items-IsKept none it (sort by_path items) refl ((sort-In by_path it items).1 m));
}
  where
    in_kept :
        (it : Item)
        → In it (keep_items none (sort by_path items))
        → In it (sort by_seq (keep_items none (sort by_path items)))
    in_kept it m = (sort-In by_seq it (keep_items none (sort by_path items))).1 m

    back :
        (it : Item)
        → IsKept none (keep_items none (sort by_path items)) it
        → In it (sort by_seq (keep_items none (sort by_path items)))
          ⊎ ((d : Item) × In d (sort by_seq (keep_items none (sort by_path items)))
              × IsCovered it d)
    back it (inl m) = inl (in_kept it m)
    back it (inr (d, inl e, covered)) = absurd (cc)
    back it (inr (d, inr m, covered)) = inr (d, in_kept d m, covered)

empty-IsPlan : IsPlan [] []
empty-IsPlan = record {
  kept = [];
  ordered = tt;
  shapes = refl;
  genuine = λ it m. m;
  complete = λ it m. absurd m;
}

nothing-IsPlan : (items : List Item) → null items ≡ true → IsPlan items []
nothing-IsPlan [] h = empty-IsPlan
nothing-IsPlan (x ∷ xs) h = absurd (cc)

-- Where no overflow is pending, the batch is a plan for the pending map.
pub take-IsPlan : (c : Coalescer) → c.is_overflow ≡ false → IsPlan c.pending (take c).0
unfolding take
take-IsPlan c live =
    if_elim (λ (x : List PlannedOp × Coalescer). IsPlan c.pending x.0) c.is_overflow _ _
      (λ e. absurd (cc))
      (λ e.
        if_elim (λ (x : List PlannedOp × Coalescer). IsPlan c.pending x.0) (null c.pending) _ _
          (λ n. nothing-IsPlan c.pending n) (λ n. batch-IsPlan c.pending))
