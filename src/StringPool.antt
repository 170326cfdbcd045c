-- ===== src/StringPool.antt =====
-- src/core/string_pool.hpp and string_pool.cpp: every distinct string gets one dense id. The chunks
-- that hold the characters are not modelled: an entry is the string that its pointer shows.
pub mod Laws
use wsldrive.Prelude.{
  ℕ, ◌+◌, Bool, List, [], ◌∷◌, ◌++◌, Bytes, bytes_eq, length, get_elem?, Option, none, some,
  if◌then◌else◌,
}

-- `index_` is an association list.
pub record StringPool : Type 0 where
  pub entries : List Bytes
  pub index : List (Bytes × ℕ)
  pub bytes : ℕ

unfoldable pub empty_pool : StringPool
empty_pool = record { entries = []; index = []; bytes = 0 }

unfoldable pub find_index : Bytes → List (Bytes × ℕ) → Option ℕ
find_index s [] = none
find_index s ((t, id) ∷ rest) = if bytes_eq t s then some id else find_index s rest

unfoldable pub find : StringPool → Bytes → Option ℕ
find pool s = find_index s pool.index

unfoldable pub add : StringPool → Bytes → StringPool
add pool s = record {
  entries = pool.entries ++ s ∷ [];
  index = (s, length pool.entries) ∷ pool.index;
  bytes = pool.bytes + length s;
}

-- The id, and the pool after it.
unfoldable pub intern : StringPool → Bytes → ℕ × StringPool
intern pool s = elim (find_index s pool.index) [
  | some id ↦ (id, pool)
  | none ↦ (length pool.entries, add pool s)
]

-- `view`, whose id is one that the pool gave out.
unfoldable pub view : StringPool → ℕ → Bytes
view pool id = elim (get_elem? pool.entries id) [ none ↦ [] | some s ↦ s ]
