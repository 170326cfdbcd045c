-- ===== src/Client/Mirror/Stale.antt =====
-- A mutation of this client and the batches that are not newer.
use wsldrive.Prelude.{
  ℕ, ◌≤◌, ◌≡◌, refl, sym, ◌∙◌, Bool, true, false, not, ◌&&◌, List, [], ◌∷◌, Bytes, bytes_eq,
  bytes_eq_sound, bytes_eq_refl, le→leb, &&_iff, some, Bool-cases, inl, inr, if◌then◌else◌,
}
use mathlib.Core.Path.{subst}
use wsldrive.Paths.{normalize_path}
use wsldrive.Protocol.Invalidations.{InvalidationOp, InvalidationBatch}
use wsldrive.Client.Mirror.{
  Mirror, Sweep, AppliedChange, find_mutation, note_mutation, is_rescan_kind, checked, apply_op,
  apply_ops,
}
use wsldrive.Client.Mirror.Kept.{apply_op-find_mutation}

-- The operation is about a path, and no rescan.
abbrev pub concerns : Bytes → InvalidationOp → Bool
concerns p op = not (is_rescan_kind op.kind) && bytes_eq op.path p

abbrev pub others : Bytes → List InvalidationOp → List InvalidationOp
others p [] = []
others p (op ∷ ops) = let rest = others p ops in if concerns p op then rest else op ∷ rest

not-true : (b : Bool) → not b ≡ true → b ≡ false
not-true true h = cc
not-true false h = refl

skipped :
    (p : Bytes) (noted generation : ℕ) (op : InvalidationOp) (s : Sweep)
    → find_mutation p s.mirror.mutations ≡ some noted
    → generation ≤ noted
    → concerns p op ≡ true
    → apply_op generation op s ≡ s
unfolding apply_op checked
skipped p noted generation op s f old h =
    let (plain, same) = (&&_iff (not (is_rescan_kind op.kind)) (bytes_eq op.path p)).0 h in
    let found : find_mutation op.path s.mirror.mutations ≡ some noted =
      subst (λ (q : Bytes). find_mutation q s.mirror.mutations ≡ some noted)
        (sym (bytes_eq_sound op.path p same)) f in
    rw (not-true (is_rescan_kind op.kind) plain, found, le→leb generation noted old) refl

-- Ops on a path whose mutation the batch is not newer than do nothing.
pub apply_ops-others :
    (p : Bytes) (noted generation : ℕ) (ops : List InvalidationOp) (s : Sweep)
    → find_mutation p s.mirror.mutations ≡ some noted
    → generation ≤ noted
    → apply_ops generation ops s ≡ apply_ops generation (others p ops) s
unfolding apply_ops
apply_ops-others p noted generation [] s f old = refl
apply_ops-others p noted generation (op ∷ ops) s f old = elim (Bool-cases (concerns p op)) [
  | inl b ↦
      rw (b, skipped p noted generation op s f old b)
        (apply_ops-others p noted generation ops s f old)
  | inr b ↦ rw b (
      apply_ops-others p noted generation ops (apply_op generation op s)
        (apply_op-find_mutation generation op s p b ∙ f) old)
]

pub find_mutation-note_mutation :
    (path : Bytes) (noted : ℕ) (m : Mirror)
    → find_mutation (normalize_path path) (note_mutation path noted m).mutations ≡ some noted
unfolding note_mutation find_mutation
find_mutation-note_mutation path noted m = rw (bytes_eq_refl (normalize_path path)) refl

-- The mutation stays noted through the batch.
pub apply_ops-find_mutation :
    (p : Bytes) (noted generation : ℕ) (ops : List InvalidationOp) (s : Sweep)
    → find_mutation p s.mirror.mutations ≡ some noted
    → generation ≤ noted
    → find_mutation p (apply_ops generation ops s).mirror.mutations ≡ some noted
unfolding apply_ops
apply_ops-find_mutation p noted generation [] s f old = f
apply_ops-find_mutation p noted generation (op ∷ ops) s f old = elim (Bool-cases (concerns p op)) [
  | inl b ↦
      subst
        (λ (t : Sweep). find_mutation p (apply_ops generation ops t).mirror.mutations ≡ some noted)
        (sym (skipped p noted generation op s f old b))
        (apply_ops-find_mutation p noted generation ops s f old)
  | inr b ↦
      apply_ops-find_mutation p noted generation ops (apply_op generation op s)
        (apply_op-find_mutation generation op s p b ∙ f) old
]

-- The batch without its operations on a path.
abbrev pub without : Bytes → InvalidationBatch → InvalidationBatch
without p batch = record batch { ops = others p batch.ops }

-- The same reports, and mirrors with the same tree and the same noted mutations, that ask alike for
-- another snapshot.
pub record IsAlike (r t : List AppliedChange × Mirror) : Type 0 where
  pub same_reports : r.0 ≡ t.0
  pub same_tree : r.1.tree ≡ t.1.tree
  pub same_mutations : r.1.mutations ≡ t.1.mutations
  pub same_request : r.1.is_requested ≡ t.1.is_requested

-- The record of batches is apart from the tree, the mutations and the request.
record IsBeside (n m : Mirror) : Type 0 where
  tree : n.tree ≡ m.tree
  mutations : n.mutations ≡ m.mutations
  request : n.is_requested ≡ m.is_requested
