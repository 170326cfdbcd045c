-- ===== src/Tree/Mutate.antt =====
-- src/core/metadata_tree.cpp: the operations that change the tree.
use wsldrive.Prelude.{
  ℕ, zero, suc, ◌+◌, ◌-◌, ◌*◌, Bool, true, false, not, ◌&&◌, ◌||◌, List, [], ◌∷◌, Bytes, length,
  null, leb, ◌==◌, Option, none, some, if◌then◌else◌,
}
use wsldrive.Types.{
  Result, ok, err, Attributes, not_found, already_exists, not_a_directory, invalid_argument,
  invalid_path,
}
use wsldrive.Paths.{components, is_skipped, normalize_path, split_parent}
use wsldrive.Unicode.{is_ascii, casefold}
use wsldrive.FlatMap
use wsldrive.StringPool.{intern}
use wsldrive.Tree.{
  MetadataTree, Node, node, set_node, is_dir, is_directory, valid, valid_name, key, invalid, root,
  alloc_node, link_child, unlink_child, index_node, unindex_node, implicit_directory,
}
use wsldrive.Tree.Lookup.{LookupMode, exactly, find_child, lookup, is_dot_dot}

unfoldable pub any_upper : Bytes → Bool
any_upper [] = false
any_upper (c ∷ name) = (leb b'A' c && leb c b'Z') || any_upper name

-- The ids of the name and of its folding, and the tree with both interned.
unfoldable pub intern_name : MetadataTree → Bytes → ℕ × MetadataTree
intern_name t name = let (id, names) = intern t.names name in (id, record t { names = names })

unfoldable pub intern_folded : MetadataTree → Bytes → ℕ → ℕ × MetadataTree
intern_folded t name nid =
    if not (is_ascii name) || any_upper name then intern_name t (casefold name) else (nid, t)

-- The part of `insert` behind its checks.
unfoldable pub add_node : MetadataTree → ℕ → Bytes → ℕ → Attributes → ℕ × MetadataTree
add_node t parent name nid attr =
    let (fid, named) = intern_folded t name nid in
    let (id, made) = alloc_node named in
    let nodes =
      set_node made.nodes id
        (record (node made.nodes id) { name = nid; folded_name = fid; attr = attr }) in
    let indexed = index_node id (record made { nodes = link_child parent id nodes }) in
    (id, record indexed { live = indexed.live + 1 })

-- A failed call has changed the names at most.
unfoldable pub insert : MetadataTree → ℕ → Bytes → Attributes → Result ℕ × MetadataTree
insert t parent name attr =
    if not (valid t parent)
    then (err not_found, t)
    else if not (is_dir (node t.nodes parent))
    then (err not_a_directory, t)
    else if not (valid_name name)
    then (err invalid_path, t)
    else let (nid, named) = intern_name t name in
      if FlatMap.contains named.exact (key parent nid)
      then (err already_exists, named)
      else let (id, added) = add_node named parent name nid attr in (ok id, added)

-- The children from `c` on, the last one first, before what is on the stack.
unfoldable pub push_children : ℕ → List Node → ℕ → List ℕ → List ℕ
push_children zero nodes c stack = stack
push_children (suc fuel) nodes c stack =
    let rest = push_children fuel nodes (node nodes c).next_sibling (c ∷ stack) in
    if c == invalid then stack else rest

-- `id` and `cur` of the loop of `release_subtree`.
unfoldable pub release_node : ℕ → ℕ → MetadataTree → MetadataTree
release_node id cur t =
    let unlinked = (if not (cur == id) then record t { nodes = unlink_child cur t.nodes } else t) in
    let gone = unindex_node cur unlinked in
    record gone {
      nodes = set_node gone.nodes cur (record (node gone.nodes cur) { name = invalid });
      free = cur ∷ gone.free;
      live = gone.live - 1;
    }

unfoldable pub release_loop : ℕ → ℕ → List ℕ → MetadataTree → MetadataTree
release_loop zero id stack t = t
release_loop (suc fuel) id [] t = t
release_loop (suc fuel) id (cur ∷ stack) t =
    let first = (node t.nodes cur).first_child in
    let deeper =
      release_loop fuel id (push_children (length t.nodes) t.nodes first (cur ∷ stack)) t in
    let onward = release_loop fuel id stack (release_node id cur t) in
    if not (first == invalid) then deeper else onward

-- Every node is met twice at most: to push its children, and to be released.
unfoldable pub release_subtree : ℕ → MetadataTree → MetadataTree
release_subtree id t = release_loop (2 * length t.nodes + 1) id (id ∷ []) t

-- `while (n.first_child != kInvalidNode)`: a round releases a child.
unfoldable pub release_children : ℕ → ℕ → MetadataTree → MetadataTree
release_children zero id t = t
release_children (suc fuel) id t =
    let c = (node t.nodes id).first_child in
    let rest =
      release_children fuel id (release_subtree c (record t { nodes = unlink_child c t.nodes })) in
    if c == invalid then t else rest

unfoldable pub set_attr : ℕ → Attributes → MetadataTree → MetadataTree
set_attr id attr t = record t {
  nodes = set_node t.nodes id (record (node t.nodes id) { attr = attr });
}

unfoldable pub set_attributes : MetadataTree → ℕ → Attributes → Result (Unit {0}) × MetadataTree
set_attributes t id attr =
    let n = node t.nodes id in
    if not (valid t id) then (err not_found, t) else (
      ok tt,
      set_attr id attr (
          if is_dir n && (not (is_directory attr.kind) && not (n.child_count == 0))
          then release_children (length t.nodes) id t
          else t),
    )

unfoldable pub refreshed : ℕ → Result (Unit {0}) × MetadataTree → Result ℕ × MetadataTree
refreshed existing (err e, after) = (err e, after)
refreshed existing (ok u, after) = (ok existing, after)

unfoldable pub upsert_found :
    MetadataTree → ℕ → Bytes → Attributes → Option ℕ → Result ℕ × MetadataTree
upsert_found t parent name attr none = insert t parent name attr
upsert_found t parent name attr (some existing) =
    refreshed existing (set_attributes t existing attr)

unfoldable pub upsert : MetadataTree → ℕ → Bytes → Attributes → Result ℕ × MetadataTree
upsert t parent name attr =
    if not (valid t parent)
    then (err not_found, t)
    else upsert_found t parent name attr (find_child t parent name exactly)

unfoldable pub remove : MetadataTree → ℕ → Result (Unit {0}) × MetadataTree
remove t id =
    if not (valid t id)
    then (err not_found, t)
    else if id == root
    then (err invalid_argument, t)
    else (ok tt, release_subtree id (record t { nodes = unlink_child id t.nodes }))

-- `for (NodeId a = new_parent; a != kInvalidNode; a = nodes_[a].parent) if (a == id) ...`
unfoldable pub is_above : ℕ → List Node → ℕ → ℕ → Bool
is_above zero nodes id a = false
is_above (suc fuel) nodes id a =
    let rest = is_above fuel nodes id (node nodes a).parent in
    if a == invalid then false else if a == id then true else rest

unfoldable pub move_node : MetadataTree → ℕ → ℕ → Bytes → ℕ → MetadataTree
move_node t id new_parent new_name nid =
    let (fid, named) = intern_folded t new_name nid in
    let unindexed = unindex_node id named in
    let unlinked = unlink_child id unindexed.nodes in
    let renamed =
      set_node unlinked id (record (node unlinked id) { name = nid; folded_name = fid }) in
    index_node id (record unindexed { nodes = link_child new_parent id renamed })

unfoldable pub rename_free :
    MetadataTree → ℕ → ℕ → Bytes → ℕ → Option ℕ → Result (Unit {0}) × MetadataTree
rename_free t id new_parent new_name nid none = (ok tt, move_node t id new_parent new_name nid)
rename_free t id new_parent new_name nid (some existing) =
    if existing == id then (ok tt, t) else (err already_exists, t)

unfoldable pub rename : MetadataTree → ℕ → ℕ → Bytes → Result (Unit {0}) × MetadataTree
rename t id new_parent new_name =
    if not (valid t id) || not (valid t new_parent)
    then (err not_found, t)
    else if id == root
    then (err invalid_argument, t)
    else if not (is_dir (node t.nodes new_parent))
    then (err not_a_directory, t)
    else if not (valid_name new_name)
    then (err invalid_path, t)
    else if is_above (length t.nodes + 1) t.nodes id new_parent
    then (err invalid_argument, t)
    else let (nid, named) = intern_name t new_name in
      rename_free named id new_parent new_name nid (FlatMap.find named.exact (key new_parent nid))

-- A round of `ensure_directory_path`: the directory that the component leads to.
unfoldable pub enter : MetadataTree → ℕ → Bytes → Option ℕ → Result ℕ × MetadataTree
enter t cur comp (some next) =
    (if is_dir (node t.nodes next) then ok next else err not_a_directory, t)
enter t cur comp none = insert t cur comp implicit_directory

unfoldable pub ensure_round : MetadataTree → ℕ → Bytes → Result ℕ × MetadataTree
ensure_round t cur comp =
    if is_skipped comp
    then (ok cur, t)
    else if is_dot_dot comp
    then (err invalid_path, t)
    else enter t cur comp (find_child t cur comp exactly)

unfoldable pub ensure_loop : Result ℕ → MetadataTree → List Bytes → Result ℕ × MetadataTree
ensure_loop (err e) t comps = (err e, t)
ensure_loop (ok cur) t [] = (ok cur, t)
ensure_loop (ok cur) t (comp ∷ comps) =
    let (r, after) = ensure_round t cur comp in ensure_loop r after comps

unfoldable pub ensure_directory_path : MetadataTree → Bytes → Result ℕ × MetadataTree
ensure_directory_path t path = ensure_loop (ok root) t (components path)

unfoldable pub upsert_in : Result ℕ → MetadataTree → Bytes → Attributes → Result ℕ × MetadataTree
upsert_in (err e) t leaf attr = (err e, t)
upsert_in (ok dir) t leaf attr = upsert t dir leaf attr

unfoldable pub upsert_path : MetadataTree → Bytes → Attributes → Result ℕ × MetadataTree
upsert_path t path attr =
    let norm = normalize_path path in
    let (parent, leaf) = split_parent norm in
    let (dir, after) = ensure_directory_path t parent in
    if null norm then (err invalid_path, t) else upsert_in dir after leaf attr

unfoldable pub remove_found : MetadataTree → Option ℕ → Result (Unit {0}) × MetadataTree
remove_found t none = (err not_found, t)
remove_found t (some id) = remove t id

unfoldable pub remove_path : MetadataTree → Bytes → LookupMode → Result (Unit {0}) × MetadataTree
remove_path t path mode = remove_found t (lookup t path mode)
