-- ===== src/Tree/Lookup.antt =====
-- src/core/metadata_tree.cpp: lookups, and the path of a node.
use wsldrive.Prelude.{
  ℕ, zero, suc, Bool, not, ◌||◌, List, [], ◌∷◌, ◌++◌, Bytes, bytes_eq, length, null, ◌==◌, Option,
  none, some, if◌then◌else◌,
}
use wsldrive.Paths.{components, is_skipped}
use wsldrive.Unicode.{casefold}
use wsldrive.FlatMap
use wsldrive.StringPool
use wsldrive.Tree.{MetadataTree, node, is_dir, valid, key, invalid, root}

pub data LookupMode : Type 0 where
  exactly case_insensitive : LookupMode

-- `exact_.find(key(parent, *nid))` for `nid = names_.find(name)`, and the same of the folded map.
unfoldable pub find_exact : MetadataTree → ℕ → Bytes → Option ℕ
find_exact t parent name = elim (StringPool.find t.names name) [
  | none ↦ none
  | some nid ↦ FlatMap.find t.exact (key parent nid)
]

unfoldable pub find_folded : MetadataTree → ℕ → Bytes → Option ℕ
find_folded t parent name = elim (StringPool.find t.names (casefold name)) [
  | none ↦ none
  | some fid ↦ FlatMap.find t.folded (key parent fid)
]

unfoldable pub otherwise : Option ℕ → LookupMode → Option ℕ → Option ℕ
otherwise (some id) mode folded = some id
otherwise none exactly folded = none
otherwise none case_insensitive folded = folded

unfoldable pub find_child : MetadataTree → ℕ → Bytes → LookupMode → Option ℕ
find_child t parent name mode =
    if not (valid t parent) || not (is_dir (node t.nodes parent))
    then none
    else otherwise (find_exact t parent name) mode (find_folded t parent name)

unfoldable pub is_dot_dot : Bytes → Bool
is_dot_dot comp = bytes_eq comp (b'.' ∷ b'.' ∷ [])

-- A round of `lookup`: from `cur` along one component.
unfoldable pub follow : MetadataTree → LookupMode → ℕ → Bytes → Option ℕ
follow t mode cur comp =
    if is_skipped comp
    then some cur
    else if is_dot_dot comp
    then (if not ((node t.nodes cur).parent == invalid)
        then some (node t.nodes cur).parent
        else some cur)
    else find_child t cur comp mode

unfoldable pub lookup_loop : MetadataTree → LookupMode → Option ℕ → List Bytes → Option ℕ
lookup_loop t mode none comps = none
lookup_loop t mode (some cur) [] = some cur
lookup_loop t mode (some cur) (comp ∷ comps) = lookup_loop t mode (follow t mode cur comp) comps

unfoldable pub lookup : MetadataTree → Bytes → LookupMode → Option ℕ
lookup t path mode = lookup_loop t mode (some root) (components path)

-- The two loops of `path_of`: the names from below the root down to the node.
unfoldable pub chain : ℕ → MetadataTree → ℕ → List Bytes
chain zero t cur = []
chain (suc fuel) t cur =
    let above = chain fuel t (node t.nodes cur).parent in
    if cur == root then [] else above ++ StringPool.view t.names (node t.nodes cur).name ∷ []

unfoldable pub join_names : ℕ → Bytes → List Bytes → Bytes
join_names sep out [] = out
join_names sep out (name ∷ names) =
    join_names sep ((if null out then out else out ++ sep ∷ []) ++ name) names

-- The chain of parents is no longer than the nodes are many.
unfoldable pub path_of : MetadataTree → ℕ → ℕ → Bytes
path_of t id sep =
    if not (valid t id) || (id == root) then [] else join_names sep [] (chain (length t.nodes) t id)
