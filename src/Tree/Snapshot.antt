-- ===== src/Tree/Snapshot.antt =====
-- src/core/metadata_tree.cpp and metadata_tree.hpp: a tree from a snapshot, and back.
use wsldrive.Prelude.{
  ℕ, zero, suc, ◌+◌, List, [], ◌∷◌, ◌++◌, length, get_elem?, ltb, ◌==◌, none, some, if◌then◌else◌,
}
use wsldrive.Types.{Result, ok, err, corrupt}
use wsldrive.Protocol.Messages.{SnapshotEntry}
use wsldrive.FlatMap
use wsldrive.StringPool
use wsldrive.Tree.{MetadataTree, Node, node, is_dir, invalid, root, clear}
use wsldrive.Tree.Mutate.{insert}

unfoldable pub id_at : List ℕ → ℕ → ℕ
id_at ids k = elim (get_elem? ids k) [ none ↦ invalid | some id ↦ id ]

unfoldable pub drop_entry : MetadataTree → MetadataTree
drop_entry t = record t { dropped = t.dropped + 1 }

-- The id that the entry pushes, and the tree after it.
unfoldable pub loaded : Result ℕ × MetadataTree → ℕ × MetadataTree
loaded (ok id, t) = (id, t)
loaded (err e, t) = (invalid, drop_entry t)

unfoldable pub load_entry : ℕ → SnapshotEntry → MetadataTree → ℕ × MetadataTree
load_entry parent e t =
    if parent == invalid then (invalid, drop_entry t) else loaded (insert t parent e.name e.attr)

unfoldable pub load_loop :
    ℕ → List ℕ → List SnapshotEntry → MetadataTree → Result (Unit {0}) × MetadataTree
load_loop k ids [] t = (ok tt, t)
load_loop k ids (e ∷ entries) t =
    let (id, after) = load_entry (id_at ids e.parent) e t in
    let rest = load_loop (k + 1) (ids ++ id ∷ []) entries after in
    if ltb k e.parent then (err corrupt, t) else rest

unfoldable pub load_snapshot : MetadataTree → List SnapshotEntry → Result (Unit {0}) × MetadataTree
load_snapshot t entries =
    let cleared = clear t in
    let n = length entries + 1 in
    load_loop 0 (root ∷ []) entries (record cleared {
      exact = FlatMap.reserve cleared.exact n;
      folded = FlatMap.reserve cleared.folded n;
    })

-- The children of a node in order, as a snapshot gives them.
unfoldable pub children : ℕ → List Node → ℕ → List ℕ
children zero nodes c = []
children (suc fuel) nodes c =
    let rest = children fuel nodes (node nodes c).next_sibling in
    if c == invalid then [] else c ∷ rest

unfoldable pub entry_of : MetadataTree → ℕ → ℕ → SnapshotEntry
entry_of t parent c = record {
  parent = parent;
  name = StringPool.view t.names (node t.nodes c).name;
  attr = (node t.nodes c).attr;
}

-- The inner loop of `export_snapshot`: the entries of the children, the directories among them for
-- the queue, and the next index.
unfoldable pub export_children :
    MetadataTree → ℕ → List ℕ → ℕ → List SnapshotEntry × List (ℕ × ℕ) × ℕ
export_children t parent [] index = ([], [], index)
export_children t parent (c ∷ cs) index =
    let (entries, queue, last) = export_children t parent cs (index + 1) in
    (
      entry_of t parent c ∷ entries,
      if is_dir (node t.nodes c) then (c, index) ∷ queue else queue,
      last,
    )

unfoldable pub export_loop : ℕ → MetadataTree → List (ℕ × ℕ) → ℕ → List SnapshotEntry
export_loop zero t queue index = []
export_loop (suc fuel) t [] index = []
export_loop (suc fuel) t ((id, parent) ∷ queue) index =
    let (entries, dirs, last) =
      export_children t parent (children (length t.nodes) t.nodes (node t.nodes id).first_child)
        index in
    entries ++ export_loop fuel t (queue ++ dirs) last

-- Every directory is in the queue once.
unfoldable pub export_snapshot : MetadataTree → List SnapshotEntry
export_snapshot t = export_loop (length t.nodes) t ((root, 0) ∷ []) 1
