-- ===== src/Client/Cache.antt =====
-- src/agent/client.cpp, the cache of file contents: `cache_put`, `cache_erase`, `evict_locked`, the
-- hits, and the invalidations. The map is an association list, and the list of uses has its most
-- recent key first; an entry's iterator into that list is its key.
pub mod Keys
pub mod Invariant
pub mod Bounded
pub mod Prefix
pub mod Reach
pub mod Hits
use wsldrive.Prelude.{
  ℕ, zero, suc, ◌+◌, ◌-◌, ◌*◌, ◌^◌, Bool, true, false, not, ◌&&◌, ◌||◌, List, [], ◌∷◌, ◌++◌, Bytes,
  bytes_eq, length, null, take, drop, min, ltb, leb, ◌==◌, Option, none, some, if◌then◌else◌,
}
use wsldrive.Prelude.Int.{ℤ, pos, negsuc}
use wsldrive.Types.{NodeKind, file, Attributes}

pub record CacheEntry : Type 0 where
  pub mtime_ns : ℤ
  pub size : ℕ
  pub contents : Bytes

abbrev pub Entries : Type 0
Entries = List (Bytes × CacheEntry)

-- `rcache_`, `lru_`, `rcache_bytes_`, `rcache_cap_` and `link_cache_`.
pub record ReadCache : Type 0 where
  pub entries : Entries
  pub lru : List Bytes
  pub held : ℕ
  pub cap : ℕ
  pub links : List (Bytes × Bytes)

unfoldable pub empty_cache : ReadCache
empty_cache = record { entries = []; lru = []; held = 0; cap = 256 * 2 ^ 20; links = [] }

unfoldable pub find_entry : Bytes → Entries → Option CacheEntry
find_entry k [] = none
find_entry k ((q, e) ∷ es) = if bytes_eq q k then some e else find_entry k es

unfoldable pub remove_entry : Bytes → Entries → Entries
remove_entry k [] = []
remove_entry k ((q, e) ∷ es) =
    let rest = remove_entry k es in if bytes_eq q k then es else (q, e) ∷ rest

unfoldable pub remove_key : Bytes → List Bytes → List Bytes
remove_key k [] = []
remove_key k (q ∷ qs) = let rest = remove_key k qs in if bytes_eq q k then qs else q ∷ rest

unfoldable pub remove_link : Bytes → List (Bytes × Bytes) → List (Bytes × Bytes)
remove_link k [] = []
remove_link k ((q, t) ∷ ls) =
    let rest = remove_link k ls in if bytes_eq q k then ls else (q, t) ∷ rest

unfoldable pub cache_erase : Bytes → CacheEntry → ReadCache → ReadCache
cache_erase k e c = record c {
  entries = remove_entry k c.entries;
  lru = remove_key k c.lru;
  held = c.held - length e.contents;
}

-- `if (it != rcache_.end()) cache_erase(it);`
unfoldable pub erase_found : Bytes → Option CacheEntry → ReadCache → ReadCache
erase_found k none c = c
erase_found k (some e) c = cache_erase k e c

-- `lru_.back()`, of a list that is not empty.
unfoldable pub last_key : List Bytes → Bytes
last_key [] = []
last_key (k ∷ []) = k
last_key (k ∷ q ∷ ks) = last_key (q ∷ ks)

-- `lru_.pop_back()`
unfoldable pub drop_last : List Bytes → List Bytes
drop_last [] = []
drop_last (k ∷ []) = []
drop_last (k ∷ q ∷ ks) = k ∷ drop_last (q ∷ ks)

-- A round of the eviction; that the key is not cached should not happen.
unfoldable pub evict_one : Bytes → Option CacheEntry → ReadCache → ReadCache
evict_one k none c = record c { lru = drop_last c.lru }
evict_one k (some e) c = cache_erase k e c

-- `while (rcache_bytes_ > rcache_cap_ && rcache_.size() > 1)`: every round takes a key off the list.
unfoldable pub evict_loop : ℕ → ReadCache → ReadCache
evict_loop zero c = c
evict_loop (suc fuel) c =
    let victim = last_key c.lru in
    let rest = evict_loop fuel (evict_one victim (find_entry victim c.entries) c) in
    if ltb c.cap c.held && ltb 1 (length c.entries) then rest else c

unfoldable pub evict_locked : ReadCache → ReadCache
evict_locked c = evict_loop (length c.lru) c

unfoldable pub set_read_cache_limit : ℕ → ReadCache → ReadCache
set_read_cache_limit cap c = evict_locked (record c { cap = cap })

unfoldable pub added : Bytes → CacheEntry → ReadCache → ReadCache
added k e c = record c {
  entries = (k, e) ∷ c.entries;
  lru = k ∷ c.lru;
  held = c.held + length e.contents;
}

-- `cache_put`, before it evicts.
unfoldable pub put_first : Bytes → CacheEntry → ReadCache → ReadCache
put_first path e c = added path e (erase_found path (find_entry path c.entries) c)

unfoldable pub cache_put : Bytes → ℤ → ℕ → Bytes → ReadCache → ReadCache
cache_put path mtime_ns size contents c =
    evict_locked
      (put_first path (record { mtime_ns = mtime_ns; size = size; contents = contents }) c)

unfoldable pub drop_cached : Bytes → ReadCache → ReadCache
drop_cached path c =
    let without = erase_found path (find_entry path c.entries) c in
    record without { links = remove_link path without.links }

unfoldable pub starts_with : Bytes → Bytes → Bool
starts_with s [] = true
starts_with [] (c ∷ p) = false
starts_with (d ∷ s) (c ∷ p) = (d == c) && starts_with s p

-- `k == dir || k.starts_with(dir + "/")`, and every key where `dir` is empty.
unfoldable pub under : Bytes → Bytes → Bool
under dir k = null dir || (bytes_eq k dir || starts_with k (dir ++ b'/' ∷ []))

-- The keys that are dropped, one by one.
unfoldable pub erase_under : Bytes → Entries → ReadCache → ReadCache
erase_under dir [] c = c
erase_under dir ((k, e) ∷ es) c =
    let rest = erase_under dir es c in
    let erased = erase_under dir es (cache_erase k e c) in if under dir k then erased else rest

unfoldable pub links_beyond : Bytes → List (Bytes × Bytes) → List (Bytes × Bytes)
links_beyond dir [] = []
links_beyond dir ((k, t) ∷ ls) =
    let rest = links_beyond dir ls in if under dir k then rest else (k, t) ∷ rest

-- With an empty `dir` the whole cache goes.
unfoldable pub drop_cached_prefix : Bytes → ReadCache → ReadCache
drop_cached_prefix dir c =
    let swept = erase_under dir c.entries c in record swept { links = links_beyond dir swept.links }

unfoldable pub same_time : ℤ → ℤ → Bool
same_time (pos a) (pos b) = a == b
same_time (negsuc a) (negsuc b) = a == b
same_time a b = false

-- `lru_.splice(lru_.begin(), lru_, it->second.lru)`
unfoldable pub touch : Bytes → ReadCache → ReadCache
touch k c = record c { lru = k ∷ remove_key k c.lru }

unfoldable pub hit : Bytes → ℤ → ℕ → ReadCache → Option CacheEntry → Option Bytes × ReadCache
hit k mtime_ns size c none = (none, c)
hit k mtime_ns size c (some e) =
    if same_time e.mtime_ns mtime_ns && (e.size == size)
    then (some e.contents, touch k c)
    else (none, c)

-- The contents under a key, where the entry has the version that the tree has.
unfoldable pub cached : Bytes → ℤ → ℕ → ReadCache → Option Bytes × ReadCache
cached k mtime_ns size c = hit k mtime_ns size c (find_entry k c.entries)

unfoldable pub slice : Bytes → ℕ → ℕ → Bytes
slice contents offset len =
    if leb (length contents) offset
    then []
    else take (min (offset + len) (length contents) - offset) (drop offset contents)

-- What `read_into` copies into a buffer of `len` bytes on a hit.
unfoldable pub copied : Bytes → ℕ → ℕ → Bytes
copied contents offset len =
    let n = (if leb (length contents) offset then 0 else min len (length contents - offset)) in
    take n (drop offset contents)
