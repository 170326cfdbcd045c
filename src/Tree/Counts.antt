-- ===== src/Tree/Counts.antt =====
-- `insert` and `load_snapshot`: what is counted, what is refused, and what a refusal leaves alone.
use wsldrive.Prelude.{
  ℕ, ◌+◌, ◌≡◌, refl, ap, ◌∙◌, Bool, true, false, not, ◌&&◌, ◌||◌, List, [], ◌∷◌, ◌++◌, Bytes,
  length, arith, ltb, ◌==◌, if◌then◌else◌, if_elim,
}
use mathlib.Core.Path.{subst}
use wsldrive.Types.{Result, ok, err, Attributes, corrupt}
use wsldrive.Protocol.Messages.{SnapshotEntry}
use wsldrive.FlatMap
use wsldrive.Unicode.{is_ascii}
use wsldrive.Tree.{
  MetadataTree, node, is_dir, valid, valid_name, key, invalid, root, alloc_node, index_node, clear,
  clear_with,
}
use wsldrive.Tree.Mutate.{insert, add_node, intern_name, intern_folded, any_upper}
use wsldrive.Tree.Snapshot.{load_snapshot, load_loop, load_entry, loaded, id_at, drop_entry}

-- The two trees have the same nodes, index and counts; the names may differ.
pub record SameTree (s t : MetadataTree) : Type 0 where
  pub nodes : s.nodes ≡ t.nodes
  pub free : s.free ≡ t.free
  pub exact : s.exact ≡ t.exact
  pub folded : s.folded ≡ t.folded
  pub live : s.live ≡ t.live
  pub collisions : s.collisions ≡ t.collisions
  pub dropped : s.dropped ≡ t.dropped

intern_name-SameTree : (t : MetadataTree) (name : Bytes) → SameTree (intern_name t name).1 t
unfolding intern_name
intern_name-SameTree t name = record {
  nodes = refl;
  free = refl;
  exact = refl;
  folded = refl;
  live = refl;
  collisions = refl;
  dropped = refl;
}

-- What `insert` promises of its result: either it counts one live node more, or it fails and the tree
-- is the same but for its names.
abbrev pub Inserted : MetadataTree → Result ℕ × MetadataTree → Type 0
Inserted t (ok id, after) = (after.live ≡ t.live + 1) × (after.dropped ≡ t.dropped)
Inserted t (err e, after) = SameTree after t

-- As many live nodes and dropped entries.
abbrev SameCounts : MetadataTree → MetadataTree → Type 0
SameCounts s t = (s.live ≡ t.live) × (s.dropped ≡ t.dropped)

intern_folded-SameCounts :
    (t : MetadataTree) (name : Bytes) (nid : ℕ) → SameCounts (intern_folded t name nid).1 t
unfolding intern_folded intern_name
intern_folded-SameCounts t name nid =
    if_elim (λ (r : ℕ × MetadataTree). SameCounts r.1 t) (not (is_ascii name) || any_upper name) _ _
      (λ e. (refl, refl)) (λ e. (refl, refl))

alloc_node-SameCounts : (t : MetadataTree) → SameCounts (alloc_node t).1 t
unfolding alloc_node
alloc_node-SameCounts t = go t.free refl
  where
    go : (free : List ℕ) → t.free ≡ free → SameCounts (alloc_node t).1 t
    go [] e = rw (e, alloc_node) (refl, refl)
    go (id ∷ free) e = rw (e, alloc_node) (refl, refl)

index_node-SameCounts : (id : ℕ) (t : MetadataTree) → SameCounts (index_node id t) t
unfolding index_node
index_node-SameCounts id t = (refl, refl)

add_node-live :
    (t : MetadataTree) (parent : ℕ) (name : Bytes) (nid : ℕ) (attr : Attributes)
    → ((add_node t parent name nid attr).1.live ≡ t.live + 1)
      × ((add_node t parent name nid attr).1.dropped ≡ t.dropped)
unfolding add_node
add_node-live t parent name nid attr =
    let named = intern_folded-SameCounts t name nid in
    let made = alloc_node-SameCounts (intern_folded t name nid).1 in
    let indexed = index_node-SameCounts (alloc_node (intern_folded t name nid).1).0 _ in
    (omega (arith, named.0, made.0, indexed.0), indexed.1 ∙ made.1 ∙ named.1)

SameTree-refl : (t : MetadataTree) → SameTree t t
SameTree-refl t = record {
  nodes = refl;
  free = refl;
  exact = refl;
  folded = refl;
  live = refl;
  collisions = refl;
  dropped = refl;
}

-- A call of `insert` counts one live node more, or it fails and leaves all of the tree but its names.
pub insert-Inserted :
    (t : MetadataTree) (parent : ℕ) (name : Bytes) (attr : Attributes)
    → Inserted t (insert t parent name attr)
unfolding insert
insert-Inserted t parent name attr =
    let same = SameTree-refl t in
    let named = intern_name-SameTree t name in
    if_elim (Inserted t) (not (valid t parent)) _ _ (λ e. same)
      (λ e.
        if_elim (Inserted t) (not (is_dir (node t.nodes parent))) _ _ (λ e. same)
          (λ e.
            if_elim (Inserted t) (not (valid_name name)) _ _ (λ e. same)
              (λ e.
                if_elim (Inserted t)
                  (FlatMap.contains (intern_name t name).1.exact
                    (key parent (intern_name t name).0))
                  _ _ (λ e. named)
                  (λ e.
                    let added =
                      add_node-live (intern_name t name).1 parent name (intern_name t name).0
                        attr in
                    (added.0 ∙ ap (λ (n : ℕ). n + 1) named.live, added.1 ∙ named.dropped)))))

-- Whether every entry's parent is the root or an entry before it.
unfoldable pub parents_precede : ℕ → List SnapshotEntry → Bool
parents_precede k [] = true
parents_precede k (e ∷ entries) = not (ltb k e.parent) && parents_precede (k + 1) entries

-- What `load_snapshot` promises of its result.
abbrev pub Loaded : Bool → ℕ → Result (Unit {0}) × MetadataTree → Type 0
Loaded fine total (r, after) =
    (r ≡ (if fine then ok tt else err corrupt)) × (fine ≡ true → after.live + after.dropped ≡ total)

load_entry-count :
    (parent : ℕ) (e : SnapshotEntry) (t : MetadataTree)
    → (load_entry parent e t).1.live + (load_entry parent e t).1.dropped ≡ t.live + t.dropped + 1
unfolding load_entry drop_entry
load_entry-count parent e t =
    if_elim (λ (r : ℕ × MetadataTree). r.1.live + r.1.dropped ≡ t.live + t.dropped + 1)
      (parent == invalid) _ _ (λ h. omega arith)
      (λ h. inserted (insert t parent e.name e.attr) (insert-Inserted t parent e.name e.attr))
  where
    inserted :
        (r : Result ℕ × MetadataTree)
        → Inserted t r
        → (loaded r).1.live + (loaded r).1.dropped ≡ t.live + t.dropped + 1
    inserted (ok id, after) h = unfold loaded in omega (arith, h.0, h.1)
    inserted (err x, after) h = unfold loaded drop_entry in omega (arith, h.live, h.dropped)

Loaded-if :
    (b fine : Bool) (m n : ℕ) (t : MetadataTree) (r : Result (Unit {0}) × MetadataTree)
    → m ≡ n
    → Loaded fine m r
    → Loaded (not b && fine) n (if b then (err corrupt, t) else r)
Loaded-if true fine m n t r e h = (refl, λ eq. absurd (cc))
Loaded-if false fine m n t r e h = subst (λ z. Loaded fine z r) e h

load_loop-Loaded :
    (k : ℕ) (ids : List ℕ) (entries : List SnapshotEntry) (t : MetadataTree)
    → Loaded
        (parents_precede k entries)
        (t.live + t.dropped + length entries)
        (load_loop k ids entries t)
unfolding load_loop parents_precede
load_loop-Loaded k ids [] t = (refl, λ h. omega arith)
load_loop-Loaded k ids (e ∷ entries) t =
    let entry = load_entry (id_at ids e.parent) e t in
    let rest = load_loop-Loaded (k + 1) (ids ++ entry.0 ∷ []) entries entry.1 in
    Loaded-if (ltb k e.parent) (parents_precede (k + 1) entries) _ _ t _
      (omega (arith, load_entry-count (id_at ids e.parent) e t)) rest

-- A snapshot is accepted exactly where every parent precedes its children, and then each of its
-- entries is a live node or counted as dropped, beside the root.
pub load_snapshot-Loaded :
    (t : MetadataTree) (entries : List SnapshotEntry)
    → Loaded (parents_precede 0 entries) (1 + length entries) (load_snapshot t entries)
unfolding load_snapshot clear clear_with
load_snapshot-Loaded t entries = load_loop-Loaded 0 (root ∷ []) entries _
