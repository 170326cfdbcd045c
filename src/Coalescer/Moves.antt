-- ===== src/Coalescer/Moves.antt =====
-- `repair_move_pairs`: what it does to the halves of renames.
use wsldrive.Prelude.{
  ℕ, ◌≡◌, ◌≢◌, refl, inl, inr, Bool, true, false, not, ◌&&◌, List, [], ◌∷◌, map, ||_right, ||_rest,
  In, In-map_elim, arith, ◌==◌, &&_iff, Bool-cases, if◌then◌else◌,
}
use mathlib.Core.Path.{subst}
use wsldrive.Types.{is_move}
use wsldrive.Coalescer.{
  PlannedOp, is_source, has_half, is_paired, degrade, repair_op, any_half, repair_move_pairs,
}

paired_kept :
    (ops : List PlannedOp) (op : PlannedOp) → is_paired ops op ≡ true → repair_op ops op ≡ op
unfolding repair_op
paired_kept ops op h = ground arith

degrade_no_move : (op : PlannedOp) → is_move (degrade op).change ≡ false
unfolding degrade is_move
degrade_no_move op = ground arith

-- A move that is still one after the repair was paired before it.
repaired_move :
    (ops : List PlannedOp) (op : PlannedOp)
    → is_move (repair_op ops op).change ≡ true
    → (is_paired ops op ≡ true) × (repair_op ops op ≡ op)
unfolding repair_op
repaired_move ops op h = ground (arith, degrade_no_move op)

-- Whether an operation is the asked half for a cookie.
abbrev half : Bool → ℕ → PlannedOp → Bool
half source cookie op =
    not (op.cookie == 0)
    && (is_move op.change
        && ((op.cookie == cookie)
            && (if source then is_source op.change else not (is_source op.change))))

half_cookie :
    (source : Bool) (cookie : ℕ) (op : PlannedOp)
    → half source cookie op ≡ true
    → (op.cookie ≡ cookie) × (cookie ≢ 0)
half_cookie source cookie op h = ground arith

module _ (ops : List PlannedOp) (cookie : ℕ) (from : has_half true cookie ops ≡ true)
    (to : has_half false cookie ops ≡ true) where
  same_cookie_paired : (op : PlannedOp) → op.cookie ≡ cookie → cookie ≢ 0 → is_paired ops op ≡ true
  unfolding is_paired
  same_cookie_paired op e nonzero = rw e (ground arith)

  -- Where both halves of a cookie are there, both are still there after the repair.
  half_stays :
      (source : Bool) (l : List PlannedOp)
      → has_half source cookie l ≡ true
      → has_half source cookie (map (repair_op ops) l) ≡ true
  unfolding has_half
  half_stays source [] h = h
  half_stays source (op ∷ l) h = elim (Bool-cases (half source cookie op)) [
    | inl here ↦
        let e = half_cookie source cookie op here in
        rw (paired_kept ops op (same_cookie_paired op e.0 e.1), here) refl
    | inr elsewhere ↦
        ||_right (half source cookie (repair_op ops op))
          (has_half source cookie (map (repair_op ops) l))
          (half_stays source l
            (||_rest (half source cookie op) (has_half source cookie l) elsewhere h))
  ]

repaired :
    (ops : List PlannedOp) → any_half ops ≡ true → repair_move_pairs ops ≡ map (repair_op ops) ops
unfolding repair_move_pairs
repaired ops h = rw h refl

paired_stays :
    (ops : List PlannedOp) (op : PlannedOp)
    → is_paired ops op ≡ true
    → is_paired (map (repair_op ops) ops) op ≡ true
unfolding is_paired
paired_stays ops op h =
    let (nonzero, both) =
      (&&_iff (not (op.cookie == 0))
          (has_half true op.cookie ops && has_half false op.cookie ops)).0
        h in
    let (from, to) = (&&_iff (has_half true op.cookie ops) (has_half false op.cookie ops)).0 both in
    rw
      (
        nonzero,
        half_stays ops op.cookie from to true ops from,
        half_stays ops op.cookie from to false ops to,
      )
      refl

-- Where some move has a cookie, every move of the repaired batch has a cookie, and the batch has
-- both halves of it.
pub repair_move_pairs-is_paired :
    (ops : List PlannedOp)
    → any_half ops ≡ true
    → (op : PlannedOp) → In op (repair_move_pairs ops)
    → is_move op.change ≡ true
    → is_paired (repair_move_pairs ops) op ≡ true
repair_move_pairs-is_paired ops h op m move =
    let (o, k, e) = In-map_elim (repair_op ops) op ops (subst (In op) (repaired ops h) m) in
    let (paired, same) = repaired_move ops o (subst (λ x. is_move x.change ≡ true) e move) in
    rw (repaired ops h, e, same) (paired_stays ops o paired)
