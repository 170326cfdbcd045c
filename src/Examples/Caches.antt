-- ===== src/Examples/Caches.antt =====
-- Runs of the cache of file contents.
use wsldrive.Prelude.{
  ℕ, ◌≡◌, refl, Bool, true, false, [], ◌∷◌, Bytes, Option, none, some, if◌then◌else◌,
}
use wsldrive.Prelude.Int.{pos}
use wsldrive.Client.Cache.{
  CacheEntry, ReadCache, empty_cache, find_entry, remove_entry, remove_key, cache_erase,
  erase_found, last_key, evict_one, evict_loop, evict_locked, set_read_cache_limit, added,
  put_first, cache_put, drop_cached, under, starts_with, erase_under, drop_cached_prefix, same_time,
  touch, hit, cached, slice, copied,
}
use wsldrive.Client.Cache.Invariant.{IsCache}
use wsldrive.Client.Cache.Bounded.{IsBounded}
use wsldrive.Client.Cache.Prefix.{find_entry-drop_cached_prefix}
use wsldrive.Client.Cache.Hits.{cached-cache_put}
use wsldrive.Client.Cache.Reach.{Reach, start, put, look, set_limit, Reach-IsCache}

abbrev inner : Bytes
inner = b'd' ∷ b'/' ∷ b'x' ∷ []

abbrev outer : Bytes
outer = b'd' ∷ b'.' ∷ []

-- Two files, of which a limit of four bytes leaves the one that was read last.
abbrev two_files : ReadCache
two_files =
    cache_put outer (pos 2) 3 (4 ∷ 5 ∷ 6 ∷ []) (cache_put inner (pos 1) 2 (1 ∷ 2 ∷ []) empty_cache)

abbrev two_files-Reach : Reach two_files
two_files-Reach =
    put outer (pos 2) 3 (4 ∷ 5 ∷ 6 ∷ []) _ (put inner (pos 1) 2 (1 ∷ 2 ∷ []) empty_cache start)

abbrev narrow : ReadCache
narrow = set_read_cache_limit 4 (cached inner (pos 1) 2 two_files).1

narrow_keeps_inner : narrow.lru ≡ inner ∷ []
unfolding find_entry set_read_cache_limit evict_locked evict_loop cached hit cache_put put_first
    added erase_found empty_cache wsldrive.Prelude.bytes_eq same_time touch remove_key evict_one
    last_key cache_erase wsldrive.Client.Cache.drop_last remove_entry
narrow_keeps_inner = refl

Reach-IsCache_example : IsCache narrow × IsBounded narrow
Reach-IsCache_example =
    Reach-IsCache narrow (set_limit 4 _ (look inner (pos 1) 2 two_files two_files-Reach))

cached-cache_put_example :
    (cached inner (pos 3) 1 (cache_put inner (pos 3) 1 (7 ∷ []) two_files)).0 ≡ some (7 ∷ [])
cached-cache_put_example =
    cached-cache_put inner (pos 3) 1 (7 ∷ []) two_files (Reach-IsCache two_files two_files-Reach).0

find_entry-drop_cached_prefix_example :
    find_entry outer (drop_cached_prefix (b'd' ∷ []) two_files).entries
    ≡ (if under (b'd' ∷ []) outer then none else find_entry outer two_files.entries)
find_entry-drop_cached_prefix_example =
    find_entry-drop_cached_prefix (b'd' ∷ []) two_files outer
      (Reach-IsCache two_files two_files-Reach).0
