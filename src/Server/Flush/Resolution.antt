-- ===== src/Server/Flush/Resolution.antt =====
-- The disk overrules the event that an operation comes from.
use wsldrive.Prelude.{
  ◌≡◌, refl, Bool, true, false, ◌||◌, List, Bytes, none, some, ◌⊎◌, inl, inr, Bool-cases,
  if◌then◌else◌, arith,
}
use mathlib.Core.Path.{subst}
use wsldrive.Types.{
  Result, ok, err, Attributes, upsert, remove, ChangeKind, modified, removed, moved_from,
}
use wsldrive.Disk.{Disk}
use wsldrive.Scanner.{join_relative, read_attributes, is_other}
use wsldrive.Ignore.{Pattern}
use wsldrive.Coalescer.{PlannedOp, is_source}
use wsldrive.Protocol.Invalidations.{InvalidationOp}
use wsldrive.Server.Flush.{
  is_rescan, is_removed, as_planned, gone, present, checked, is_left_out, resolve_op,
}

-- What a peer is told of a path, by what the disk says of it.
abbrev pub IsTrue : Result Attributes → InvalidationOp → Type 0
IsTrue (err e) out =
    (out.kind ≡ remove) × (((out.change ≡ removed) × (out.cookie ≡ 0)) ⊎ (out.change ≡ moved_from))
IsTrue (ok attr) out =
    (out.kind ≡ upsert)
    × (out.attr ≡ attr)
    × (is_other attr.kind ≡ false)
    × ((is_removed out.change || is_source out.change) ≡ false)

is_source_sound : (c : ChangeKind) → is_source c ≡ true → c ≡ moved_from
unfolding is_source
is_source_sound c h = ground arith

gone-IsTrue : (op : PlannedOp) (e : _) → IsTrue (err e) (gone op)
unfolding gone as_planned
gone-IsTrue op e = elim (Bool-cases (is_source op.change)) [
  | inl s ↦ (refl, rw s (inr (is_source_sound op.change s)))
  | inr s ↦ (refl, rw s (inl (refl, refl)))
]

present_change :
    (c : ChangeKind)
    → (is_removed (if is_removed c || is_source c then modified else c)
        || is_source (if is_removed c || is_source c then modified else c))
      ≡ false
unfolding is_removed is_source
present_change c = ground arith

present-IsTrue :
    (op : PlannedOp) (attr : Attributes)
    → is_other attr.kind ≡ false
    → IsTrue (ok attr) (present attr op) × ((present attr op).path ≡ op.path)
unfolding present as_planned
present-IsTrue op attr e = ((refl, refl, e, present_change op.change), refl)

checked-IsTrue :
    (op : PlannedOp) (r : Result Attributes) (out : InvalidationOp)
    → checked op r ≡ some out
    → IsTrue r out × (out.path ≡ op.path)
unfolding checked
checked-IsTrue op (err e) out h =
    let same : gone op ≡ out = cc in
    subst (λ (o : InvalidationOp). IsTrue (err e) o × (o.path ≡ op.path)) same
      (gone-IsTrue op e, unfold gone as_planned in refl)
checked-IsTrue op (ok attr) out h = go (is_other attr.kind) refl h
  where
    go :
        (b : Bool)
        → is_other attr.kind ≡ b
        → (if b then none else some (present attr op)) ≡ some out
        → IsTrue (ok attr) out × (out.path ≡ op.path)
    go true e k = absurd (cc)
    go false e k =
        let same : present attr op ≡ out = cc in
        subst (λ (o : InvalidationOp). IsTrue (ok attr) o × (o.path ≡ op.path)) same
          (present-IsTrue op attr e)

module _ {W : Type 0} (disk : Disk W) (w : W) (root : Bytes) (ignore : List Pattern) where
  -- An operation that goes on the wire says of its path what the disk says when the batch is taken,
  -- whatever the event was: a path that cannot be read is removed, without a cookie, or the source of
  -- a move; one that can be read is an upsert with its attributes, and neither removed nor the source
  -- of a move.
  pub resolve_op-IsTrue :
      (op : PlannedOp) (out : InvalidationOp)
      → is_rescan op.kind ≡ false
      → resolve_op disk w root ignore op ≡ some out
      → IsTrue (read_attributes disk (join_relative root op.path) w) out × (out.path ≡ op.path)
  unfolding resolve_op
  resolve_op-IsTrue op out per_path = go (is_left_out ignore op)
    where
      go :
          (b : Bool)
          → (if b
              then none
              else if is_rescan op.kind
              then some (as_planned op)
              else checked op (read_attributes disk (join_relative root op.path) w))
            ≡ some out
          → IsTrue (read_attributes disk (join_relative root op.path) w) out × (out.path ≡ op.path)
      go true = λ h. absurd (cc)
      go false = rw per_path (checked-IsTrue op _ out)
