-- ===== src/Tree.antt =====
-- src/core/metadata_tree.hpp and metadata_tree.cpp: the directory tree held in memory. This file has
-- the nodes, their links and their index; the children have the operations.
pub mod Mutate
pub mod Lookup
pub mod Snapshot
pub mod Counts
use wsldrive.Prelude.{
  ℕ, zero, suc, ◌+◌, ◌-◌, ◌*◌, ◌%◌, ◌^◌, bit_or, Bool, true, false, not, ◌&&◌, ◌||◌, List, [], ◌∷◌,
  ◌++◌, Bytes, bytes_eq, length, null, get_elem?, ltb, leb, ◌==◌, Option, none, some, if◌then◌else◌,
}
use wsldrive.Prelude.Int.{ℤ, pos}
use wsldrive.Types.{NodeKind, file, directory, symlink, other, Attributes}
use wsldrive.Paths.{is_path_separator}
use wsldrive.Unicode.{is_ascii, casefold}
use wsldrive.FlatMap.{U64Map, empty_map, contains, erase, insert_or_assign, insert_if_absent}
use wsldrive.FlatMap
use wsldrive.StringPool.{StringPool, empty_pool, intern}
use wsldrive.StringPool

-- `kInvalidNode` and `kInvalidName`
unfoldable pub invalid : ℕ
invalid = 2 ^ 32 - 1

pub record Node : Type 0 where
  pub name : ℕ
  pub folded_name : ℕ
  pub parent : ℕ
  pub first_child : ℕ
  pub last_child : ℕ
  pub next_sibling : ℕ
  pub prev_sibling : ℕ
  pub child_count : ℕ
  pub attr : Attributes

unfoldable pub no_attributes : Attributes
no_attributes = record { size = 0; mtime_ns = pos 0; mode = 0; kind = file }

-- `Node{}`
unfoldable pub blank_node : Node
blank_node = record {
  name = invalid;
  folded_name = invalid;
  parent = invalid;
  first_child = invalid;
  last_child = invalid;
  next_sibling = invalid;
  prev_sibling = invalid;
  child_count = 0;
  attr = no_attributes;
}

unfoldable pub is_directory : NodeKind → Bool
is_directory directory = true
is_directory _ = false

unfoldable pub is_dir : Node → Bool
is_dir n = is_directory n.attr.kind

-- `free_` has its back first.
pub record MetadataTree : Type 0 where
  pub names : StringPool
  pub nodes : List Node
  pub free : List ℕ
  pub exact : U64Map
  pub folded : U64Map
  pub live : ℕ
  pub collisions : ℕ
  pub dropped : ℕ

unfoldable pub implicit_directory : Attributes
implicit_directory = record { size = 0; mtime_ns = pos 0; mode = 0o755; kind = directory }

-- `nodes_[id]`, for an id in range.
unfoldable pub node : List Node → ℕ → Node
node nodes id = elim (get_elem? nodes id) [ none ↦ blank_node | some n ↦ n ]

unfoldable pub set_node : List Node → ℕ → Node → List Node
set_node [] id n = []
set_node (m ∷ nodes) zero n = n ∷ nodes
set_node (m ∷ nodes) (suc id) n = m ∷ set_node nodes id n

unfoldable pub valid : MetadataTree → ℕ → Bool
valid t id = ltb id (length t.nodes) && not ((node t.nodes id).name == invalid)

unfoldable pub root : ℕ
root = 0

-- `clear()`, which the constructor amounts to; the slots of the two maps stay.
unfoldable pub clear_with : U64Map → U64Map → MetadataTree
clear_with exact folded =
    let (name, names) = intern empty_pool [] in
    record {
      names = names;
      nodes = record blank_node { name = name; folded_name = name; attr = implicit_directory } ∷ [];
      free = [];
      exact = exact;
      folded = folded;
      live = 1;
      collisions = 0;
      dropped = 0;
    }

unfoldable pub empty_tree : MetadataTree
empty_tree = clear_with empty_map empty_map

unfoldable pub clear : MetadataTree → MetadataTree
clear t = clear_with (FlatMap.clear t.exact) (FlatMap.clear t.folded)

unfoldable pub no_bad_byte : Bytes → Bool
no_bad_byte [] = true
no_bad_byte (c ∷ name) = not (is_path_separator c || (c == 0)) && no_bad_byte name

unfoldable pub valid_name : Bytes → Bool
valid_name name =
    not (null name || (bytes_eq name (b'.' ∷ []) || bytes_eq name (b'.' ∷ b'.' ∷ [])))
    && no_bad_byte name

-- `(parent << 32) | name`
unfoldable pub key : ℕ → ℕ → ℕ
key parent name = bit_or (parent * 2 ^ 32) name

-- The id, and the tree after it.
unfoldable pub alloc_node : MetadataTree → ℕ × MetadataTree
alloc_node t = elim t.free [
  | [] ↦ (length t.nodes, record t { nodes = t.nodes ++ blank_node ∷ [] })
  | id ∷ free ↦ (id, record t { nodes = set_node t.nodes id blank_node; free = free })
]

unfoldable pub set_next : ℕ → ℕ → List Node → List Node
set_next id next nodes = set_node nodes id (record (node nodes id) { next_sibling = next })

unfoldable pub set_prev : ℕ → ℕ → List Node → List Node
set_prev id prev nodes = set_node nodes id (record (node nodes id) { prev_sibling = prev })

unfoldable pub set_first : ℕ → ℕ → List Node → List Node
set_first id first nodes = set_node nodes id (record (node nodes id) { first_child = first })

unfoldable pub set_last : ℕ → ℕ → List Node → List Node
set_last id last nodes = set_node nodes id (record (node nodes id) { last_child = last })

unfoldable pub set_count : ℕ → ℕ → List Node → List Node
set_count id count nodes = set_node nodes id (record (node nodes id) { child_count = count })

unfoldable pub link_child : ℕ → ℕ → List Node → List Node
link_child parent child nodes =
    let last = (node nodes parent).last_child in
    let placed = set_node nodes child (record (node nodes child) {
      parent = parent;
      next_sibling = invalid;
      prev_sibling = last;
    }) in
    let linked =
      (if not (last == invalid)
        then set_next last child placed
        else set_first parent child placed) in
    set_count parent ((node nodes parent).child_count + 1) (set_last parent child linked)

unfoldable pub unlink_child : ℕ → List Node → List Node
unlink_child child nodes =
    let c = node nodes child in
    let before =
      (if not (c.prev_sibling == invalid)
        then set_next c.prev_sibling c.next_sibling nodes
        else set_first c.parent c.next_sibling nodes) in
    let after =
      (if not (c.next_sibling == invalid)
        then set_prev c.next_sibling c.prev_sibling before
        else set_last c.parent c.prev_sibling before) in
    set_prev child invalid
      (set_next child invalid (set_count c.parent ((node nodes c.parent).child_count - 1) after))

unfoldable pub index_node : ℕ → MetadataTree → MetadataTree
index_node id t =
    let n = node t.nodes id in
    let (added, folded) = insert_if_absent t.folded (key n.parent n.folded_name) id in
    record t {
      exact = (insert_or_assign t.exact (key n.parent n.name) id).1;
      folded = folded;
      collisions = if added then t.collisions else t.collisions + 1;
    }

-- The loop over the siblings: the first other one with the same folding. `fuel` is the number of
-- nodes, which the chain of siblings cannot pass.
unfoldable pub same_folding : ℕ → List Node → ℕ → ℕ → ℕ → Option ℕ
same_folding zero nodes id folded s = none
same_folding (suc fuel) nodes id folded s =
    let rest = same_folding fuel nodes id folded (node nodes s).next_sibling in
    if s == invalid
    then none
    else if not (s == id) && ((node nodes s).folded_name == folded)
    then some s
    else rest

-- `--collisions_`, of a `size_t`.
unfoldable pub decremented : ℕ → ℕ
decremented n = (n + (2 ^ 64 - 1)) % 2 ^ 64

unfoldable pub hand_over : Option ℕ → ℕ → MetadataTree → MetadataTree
hand_over none fk t = t
hand_over (some s) fk t = record t {
  folded = (insert_if_absent t.folded fk s).1;
  collisions = decremented t.collisions;
}

unfoldable pub unindex_folded : Option ℕ → ℕ → ℕ → MetadataTree → MetadataTree
unindex_folded none fk id t = t
unindex_folded (some owner) fk id t =
    let erased = record t { folded = (erase t.folded fk).1 } in
    let n = node t.nodes id in
    if not (owner == id)
    then record t { collisions = decremented t.collisions }
    else if t.collisions == 0
    then erased
    else hand_over
        (same_folding (length t.nodes + 1) t.nodes id n.folded_name
          (node t.nodes n.parent).first_child)
        fk erased

unfoldable pub unindex_node : ℕ → MetadataTree → MetadataTree
unindex_node id t =
    let n = node t.nodes id in
    let fk = key n.parent n.folded_name in
    unindex_folded (FlatMap.find t.folded fk) fk id
      (record t { exact = (erase t.exact (key n.parent n.name)).1 })
