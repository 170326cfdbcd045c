-- ===== src/Paths.antt =====
-- src/core/path.hpp and path.cpp: relative paths as byte strings.
pub mod Components
pub mod Normal
pub mod Under
use wsldrive.Prelude.{
  ℕ, zero, suc, ◌+◌, Bool, true, false, not, ◌&&◌, ◌||◌, List, [], ◌∷◌, ◌++◌, Bytes, bytes_eq,
  length, take, drop, null, ltb, ◌==◌, Option, none, some, if◌then◌else◌,
}

unfoldable pub is_path_separator : ℕ → Bool
is_path_separator c = (c == b'/') || (c == 0x5C)

-- `while (i < n && is_path_separator(in[i])) ++i;`
unfoldable pub skip_separators : Bytes → Bytes
skip_separators [] = []
skip_separators (c ∷ s) = if is_path_separator c then skip_separators s else c ∷ s

-- `while (j < n && !is_path_separator(in[j])) ++j;`: what it steps over, and what it leaves.
unfoldable pub component : Bytes → Bytes
component [] = []
component (c ∷ s) = if is_path_separator c then [] else c ∷ component s

unfoldable pub after_component : Bytes → Bytes
after_component [] = []
after_component (c ∷ s) = if is_path_separator c then c ∷ s else after_component s

-- The components that `while (i < n)` goes through, an empty last one included. A round takes a
-- byte at least, so the length of the input is fuel enough.
unfoldable pub components_loop : ℕ → Bytes → List Bytes
components_loop fuel [] = []
components_loop zero (c ∷ s) = []
components_loop (suc fuel) (c ∷ s) =
    component (skip_separators (c ∷ s))
    ∷ components_loop fuel (after_component (skip_separators (c ∷ s)))

unfoldable pub components : Bytes → List Bytes
components s = components_loop (length s) s

-- `comp.empty() || comp == "."`
unfoldable pub is_skipped : Bytes → Bool
is_skipped comp = null comp || bytes_eq comp (b'.' ∷ [])

-- One round: `start` is the size of `out` before the call.
unfoldable pub push_component : ℕ → Bytes → Bytes → Bytes
push_component start out comp =
    if is_skipped comp
    then out
    else (if ltb start (length out) then out ++ b'/' ∷ [] else out) ++ comp

unfoldable pub push_components : ℕ → Bytes → List Bytes → Bytes
push_components start out [] = out
push_components start out (comp ∷ comps) =
    push_components start (push_component start out comp) comps

unfoldable pub normalize_path_append : Bytes → Bytes → Bytes
normalize_path_append s out = push_components (length out) out (components s)

unfoldable pub normalize_path : Bytes → Bytes
normalize_path s = normalize_path_append s []

-- `path.rfind('/')`: the part before the last '/' and the part behind it.
unfoldable pub rsplit : Bytes → Option (Bytes × Bytes)
rsplit [] = none
rsplit (c ∷ s) = elim (rsplit s) [
  | some (front, back) ↦ some (c ∷ front, back)
  | none ↦ if c == b'/' then some ([], s) else none
]

unfoldable pub split_parent : Bytes → Bytes × Bytes
split_parent path = elim (rsplit path) [ none ↦ ([], path) | some (front, back) ↦ (front, back) ]

-- `child[parent.size()] == '/'`
unfoldable pub starts_with_slash : Bytes → Bool
starts_with_slash [] = false
starts_with_slash (c ∷ s) = c == b'/'

unfoldable pub path_is_under : Bytes → Bytes → Bool
path_is_under child parent =
    if null parent
    then true
    else if ltb (length child) (length parent)
    then false
    else if not (bytes_eq (take (length parent) child) parent)
    then false
    else (length child == length parent) || starts_with_slash (drop (length parent) child)
