-- ===== src/Client/Mirror/Kept.antt =====
-- What the operations of a batch leave of the records beside the tree.
use wsldrive.Prelude.{
  ℕ, ◌≡◌, refl, sym, ap, ◌∙◌, false, not, ◌&&◌, List, [], ◌∷◌, Bytes, bytes_eq, bytes_eq_sound, leb,
  Option, none, some, Bool-cases, inl, inr, if_elim,
}
use mathlib.Core.Path.{subst}
use wsldrive.Types.{InvalidationKind, upsert, remove, rescan}
use wsldrive.Protocol.Invalidations.{InvalidationOp}
use wsldrive.Client.Mirror.{
  Mutations, Mirror, Sweep, find_mutation, erase_mutation, apply_upsert, apply_remove, apply_kind,
  is_rescan_kind, checked, apply_op, apply_ops,
}

-- The record of batches is as it was.
pub record IsRecorded (m n : Mirror) : Type 0 where
  pub same_flight : n.in_flight ≡ m.in_flight
  pub same_replay : n.replay ≡ m.replay
  pub same_overflow : n.is_overflow ≡ m.is_overflow

pub IsRecorded-refl : (m : Mirror) → IsRecorded m m
IsRecorded-refl m = record { same_flight = refl; same_replay = refl; same_overflow = refl }

IsRecorded-trans : (m n o : Mirror) → IsRecorded m n → IsRecorded n o → IsRecorded m o
IsRecorded-trans m n o f g = record {
  same_flight = g.same_flight ∙ f.same_flight;
  same_replay = g.same_replay ∙ f.same_replay;
  same_overflow = g.same_overflow ∙ f.same_overflow;
}

apply_kind-IsRecorded :
    (kind : InvalidationKind) (op : InvalidationOp) (s : Sweep)
    → IsRecorded s.mirror (apply_kind kind op s).mirror
unfolding apply_kind apply_upsert apply_remove
apply_kind-IsRecorded upsert op s = record {
  same_flight = refl;
  same_replay = refl;
  same_overflow = refl;
}
apply_kind-IsRecorded remove op s = record {
  same_flight = refl;
  same_replay = refl;
  same_overflow = refl;
}
apply_kind-IsRecorded rescan op s = IsRecorded-refl s.mirror

checked-IsRecorded :
    (generation : ℕ) (op : InvalidationOp) (found : Option ℕ) (s : Sweep)
    → IsRecorded s.mirror (checked generation op found s).mirror
unfolding checked
checked-IsRecorded generation op none s = apply_kind-IsRecorded op.kind op s
checked-IsRecorded generation op (some noted) s =
    let m = s.mirror in
    let caught_up : Sweep = record s {
      mirror = record m { mutations = erase_mutation op.path m.mutations };
    } in
    if_elim (λ (r : Sweep). IsRecorded s.mirror r.mirror) (leb generation noted) s
      (apply_kind op.kind op caught_up) (λ _. IsRecorded-refl s.mirror)
      (λ _.
        let k = apply_kind-IsRecorded op.kind op caught_up in
        record {
          same_flight = k.same_flight;
          same_replay = k.same_replay;
          same_overflow = k.same_overflow;
        })

apply_op-IsRecorded :
    (generation : ℕ) (op : InvalidationOp) (s : Sweep)
    → IsRecorded s.mirror (apply_op generation op s).mirror
unfolding apply_op
apply_op-IsRecorded generation op s =
    if_elim (λ (r : Sweep). IsRecorded s.mirror r.mirror) (is_rescan_kind op.kind)
      (apply_kind op.kind op s) (checked generation op (find_mutation op.path s.mirror.mutations) s)
      (λ _. apply_kind-IsRecorded op.kind op s)
      (λ _. checked-IsRecorded generation op (find_mutation op.path s.mirror.mutations) s)

pub apply_ops-IsRecorded :
    (generation : ℕ) (ops : List InvalidationOp) (s : Sweep)
    → IsRecorded s.mirror (apply_ops generation ops s).mirror
unfolding apply_ops
apply_ops-IsRecorded generation [] s = IsRecorded-refl s.mirror
apply_ops-IsRecorded generation (op ∷ ops) s =
    IsRecorded-trans s.mirror _ _ (apply_op-IsRecorded generation op s)
      (apply_ops-IsRecorded generation ops (apply_op generation op s))

-- Only the path of an operation loses its noted mutation.
pub find_mutation-erase_mutation :
    (p q : Bytes) (ms : Mutations)
    → bytes_eq p q ≡ false
    → find_mutation q (erase_mutation p ms) ≡ find_mutation q ms
unfolding find_mutation erase_mutation
find_mutation-erase_mutation p q [] h = refl
find_mutation-erase_mutation p q ((x, g) ∷ ms) h = elim (Bool-cases (bytes_eq x p)) [
  | inl b ↦
      rw b (rw (subst (λ (y : Bytes). bytes_eq y q ≡ false) (sym (bytes_eq_sound x p b)) h) refl)
  | inr b ↦ rw (b, find_mutation-erase_mutation p q ms h) refl
]

apply_kind-mutations :
    (kind : InvalidationKind) (op : InvalidationOp) (s : Sweep)
    → (apply_kind kind op s).mirror.mutations ≡ s.mirror.mutations
unfolding apply_kind apply_upsert apply_remove
apply_kind-mutations upsert op s = refl
apply_kind-mutations remove op s = refl
apply_kind-mutations rescan op s = refl

checked-find_mutation :
    (generation : ℕ) (op : InvalidationOp) (found : Option ℕ) (s : Sweep) (q : Bytes)
    → bytes_eq op.path q ≡ false
    → find_mutation q (checked generation op found s).mirror.mutations
      ≡ find_mutation q s.mirror.mutations
unfolding checked
checked-find_mutation generation op none s q h =
    ap (find_mutation q) (apply_kind-mutations op.kind op s)
checked-find_mutation generation op (some noted) s q h =
    let m = s.mirror in
    let caught_up : Sweep = record s {
      mirror = record m { mutations = erase_mutation op.path m.mutations };
    } in
    if_elim (λ (r : Sweep). find_mutation q r.mirror.mutations ≡ find_mutation q s.mirror.mutations)
      (leb generation noted) s (apply_kind op.kind op caught_up) (λ _. refl)
      (λ _.
        ap (find_mutation q) (apply_kind-mutations op.kind op caught_up)
        ∙ find_mutation-erase_mutation op.path q m.mutations h)

-- An operation that is a rescan or has another path leaves the mutation noted for a path.
pub apply_op-find_mutation :
    (generation : ℕ) (op : InvalidationOp) (s : Sweep) (q : Bytes)
    → (not (is_rescan_kind op.kind) && bytes_eq op.path q) ≡ false
    → find_mutation q (apply_op generation op s).mirror.mutations
      ≡ find_mutation q s.mirror.mutations
unfolding apply_op
apply_op-find_mutation generation op s q h = elim (Bool-cases (is_rescan_kind op.kind)) [
  | inl b ↦ rw b (ap (find_mutation q) (apply_kind-mutations op.kind op s))
  | inr b ↦ rw b (checked-find_mutation generation op _ s q (other b h))
]
  where
    other :
        is_rescan_kind op.kind ≡ false
        → (not (is_rescan_kind op.kind) && bytes_eq op.path q) ≡ false
        → bytes_eq op.path q ≡ false
    other b = rw b (λ h. h)
