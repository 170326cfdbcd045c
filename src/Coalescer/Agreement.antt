-- ===== src/Coalescer/Agreement.antt =====
-- The kind, the change and the cookie of an operation agree, whatever the repair of moves did.
use wsldrive.Prelude.{
  ◌≤◌, ◌≡◌, sym, Bool, true, false, not, ◌&&◌, List, [], ◌∷◌, map, arith, null, if_elim, All,
  All_intro, All_of_In, In-map_elim, none,
}
use mathlib.Core.Path.{subst}
use wsldrive.Types.{is_move}
use wsldrive.Coalescer.{
  Item, PlannedOp, Options, Coalescer, sort, by_seq, by_path, keep_items, to_op, repair_op,
  repair_move_pairs, any_half, batch, take, degrade, is_paired, is_source,
}
use wsldrive.Coalescer.History.{Reach, Reach-WellFormed, agrees}
use wsldrive.Coalescer.Batch.{planned-In}

-- An operation agrees with itself as a pending entry has to: see `agrees`.
abbrev pub op_agrees : PlannedOp → Bool
op_agrees op = agrees (record {
  kind = op.kind;
  seq = 0;
  appeared = op.appeared;
  change = op.change;
  cookie = op.cookie;
})

op_agrees-degrade :
    (op : PlannedOp)
    → op_agrees op ≡ true
    → is_move op.change ≡ true
    → op_agrees (degrade op) ≡ true
unfolding agrees degrade is_source is_move
op_agrees-degrade op h m = ground arith

op_agrees-repair_op :
    (ops : List PlannedOp) (op : PlannedOp)
    → op_agrees op ≡ true
    → op_agrees (repair_op ops op) ≡ true
unfolding repair_op
op_agrees-repair_op ops op h =
    if_elim (λ o. op_agrees o ≡ true) (is_move op.change && not (is_paired ops op)) _ _
      (λ e. op_agrees-degrade op h (ground arith)) (λ e. h)

op_agrees-repair_move_pairs :
    (ops : List PlannedOp)
    → All (λ o. op_agrees o ≡ true) ops
    → All (λ o. op_agrees o ≡ true) (repair_move_pairs ops)
unfolding repair_move_pairs
op_agrees-repair_move_pairs ops h =
    if_elim (All (λ o. op_agrees o ≡ true)) (any_half ops) _ _ (λ e. go ops h) (λ e. h)
  where
    go :
        (l : List PlannedOp)
        → All (λ o. op_agrees o ≡ true) l
        → All (λ o. op_agrees o ≡ true) (map (repair_op ops) l)
    go [] h = tt
    go (op ∷ l) h = (op_agrees-repair_op ops op h.0, go l h.1)

op_agrees-batch :
    (items : List Item)
    → All (λ it. agrees it.1 ≡ true) items
    → All (λ o. op_agrees o ≡ true) (batch items)
unfolding batch to_op agrees
op_agrees-batch items h = op_agrees-repair_move_pairs _ (
    All_intro _ _ (λ o m.
      let (it, k, e) = In-map_elim to_op o (sort by_seq (keep_items none (sort by_path items))) m in
      subst (λ x. op_agrees x ≡ true) (sym e)
        (All_of_In (λ x. agrees x.1 ≡ true) it items h (planned-In it items k))))

-- In every history, an operation of a batch that is no rescan has the kind of its change, is marked
-- as new exactly where it creates or moves in, and has a cookie only as half of a move.
pub take-op_agrees :
    (opts : Options) (c : Coalescer)
    → Reach opts c
    → c.is_overflow ≡ false
    → All (λ o. op_agrees o ≡ true) (take c).0
unfolding take
take-op_agrees opts c r live =
    if_elim (λ (x : List PlannedOp × Coalescer). All (λ o. op_agrees o ≡ true) x.0) c.is_overflow _
      _ (λ e. absurd (cc))
      (λ e.
        if_elim (λ (x : List PlannedOp × Coalescer). All (λ o. op_agrees o ≡ true) x.0)
          (null c.pending) _ _ (λ n. tt)
          (λ n. op_agrees-batch c.pending (All_map c.pending (Reach-WellFormed r).entries)))
  where
    All_map :
        (es : List Item)
        → All (λ it. (it.1.seq ≤ c.seq) × (agrees it.1 ≡ true)) es
        → All (λ it. agrees it.1 ≡ true) es
    All_map [] h = tt
    All_map (x ∷ xs) h = (h.0.1, All_map xs h.1)
