-- ===== src/Client/Cache/Invariant.antt =====
-- What holds of the cache between its operations: the list of uses has the keys of the entries, each
-- once, and the bytes that are counted are those of the entries.
use wsldrive.Prelude.{
  ℕ, zero, suc, ◌+◌, ◌≡◌, refl, sym, ap, ◌∙◌, true, false, List, [], Bytes, bytes_eq, bytes_eq_refl,
  ◌||◌, length, Option, none, some, List-cases, inl, inr, ltb, ◌&&◌, if_elim, arith,
}
use wsldrive.Prelude.Int.{ℤ}
use mathlib.Core.Path.{subst}
use wsldrive.Client.Cache.{
  CacheEntry, Entries, ReadCache, find_entry, remove_entry, remove_key, cache_erase, erase_found,
  last_key, drop_last, added, put_first, evict_one, evict_loop, evict_locked, cache_put,
  set_read_cache_limit,
}
use wsldrive.Client.Cache.Keys.{
  mem, keys, Distinct, total, keys-remove_entry, mem-find_entry, find_entry-none,
  find_entry-remove_entry, total-remove_entry, mem-remove_key, Distinct-remove_key,
  length-remove_key, length-keys, mem-last_key,
}

pub record IsCache (c : ReadCache) : Type 0 where
  pub distinct_keys : Distinct (keys c.entries)
  pub distinct_uses : Distinct c.lru
  pub same_keys : (k : Bytes) → mem k c.lru ≡ mem k (keys c.entries)
  pub as_many : length c.lru ≡ length c.entries
  pub counted : c.held ≡ total c.entries

pub length-remove_entry :
    (k : Bytes) (es : Entries) (e : CacheEntry)
    → find_entry k es ≡ some e
    → length (remove_entry k es) + 1 ≡ length es
length-remove_entry k es e h =
    let left = length-remove_key k (keys es) (mem-find_entry k es e h) in
    let same = length-keys (remove_entry k es) in
    let all = length-keys es in
    let keys_left : length (keys (remove_entry k es)) ≡ length (remove_key k (keys es)) =
      ap length (keys-remove_entry k es) in
    omega arith

pub cache_erase-IsCache :
    (k : Bytes) (e : CacheEntry) (c : ReadCache)
    → find_entry k c.entries ≡ some e
    → IsCache c
    → IsCache (cache_erase k e c)
unfolding cache_erase
cache_erase-IsCache k e c f h = record {
  distinct_keys =
      rw (keys-remove_entry k c.entries) (Distinct-remove_key k (keys c.entries) h.distinct_keys);
  distinct_uses = Distinct-remove_key k c.lru h.distinct_uses;
  same_keys = λ q.
      rw
        (
          mem-remove_key k q c.lru h.distinct_uses,
          keys-remove_entry k c.entries,
          mem-remove_key k q (keys c.entries) h.distinct_keys,
          h.same_keys q,
        )
        refl;
  as_many =
      let used = length-remove_key k c.lru (h.same_keys k ∙ mem-find_entry k c.entries e f) in
      let held = length-remove_entry k c.entries e f in let many = h.as_many in omega arith;
  counted = let sum = total-remove_entry k c.entries e f in let all = h.counted in omega arith;
}

pub erase_found-IsCache :
    (k : Bytes) (found : Option CacheEntry) (c : ReadCache)
    → find_entry k c.entries ≡ found
    → IsCache c
    → IsCache (erase_found k found c)
unfolding erase_found
erase_found-IsCache k none c f h = h
erase_found-IsCache k (some e) c f h = cache_erase-IsCache k e c f h

-- A round of the eviction takes a cached key, unless there is none.
pub victim_found :
    (c : ReadCache) → IsCache c → find_entry (last_key c.lru) c.entries ≡ none → c.lru ≡ []
victim_found c h f = elim (List-cases c.lru) [
  | inl e ↦ e
  | inr (k, ks, e) ↦ absurd (
      let held : mem (last_key c.lru) c.lru ≡ true = rw e (mem-last_key k ks) in
      let not_held = find_entry-none (last_key c.lru) c.entries f in
      let same = h.same_keys (last_key c.lru) in cc)
]

pub evict_one-IsCache :
    (c : ReadCache) (found : Option CacheEntry)
    → find_entry (last_key c.lru) c.entries ≡ found
    → IsCache c
    → IsCache (evict_one (last_key c.lru) found c)
unfolding evict_one drop_last
evict_one-IsCache c (some e) f h = cache_erase-IsCache (last_key c.lru) e c f h
evict_one-IsCache c none f h =
    let same : drop_last c.lru ≡ c.lru = rw (victim_found c h f) refl in
    subst (λ (u : List Bytes). IsCache (record c { lru = u })) (sym same) h

pub evict_loop-IsCache : (fuel : ℕ) (c : ReadCache) → IsCache c → IsCache (evict_loop fuel c)
unfolding evict_loop
evict_loop-IsCache zero c h = h
evict_loop-IsCache (suc fuel) c h =
    if_elim IsCache (ltb c.cap c.held && ltb 1 (length c.entries))
      (evict_loop fuel (evict_one (last_key c.lru) (find_entry (last_key c.lru) c.entries) c)) c
      (λ _. evict_loop-IsCache fuel _ (evict_one-IsCache c _ refl h)) (λ _. h)

-- An entry in front of a cache that has none under its key.
pub added-IsCache :
    (k : Bytes) (e : CacheEntry) (c : ReadCache)
    → mem k (keys c.entries) ≡ false
    → IsCache c
    → IsCache (added k e c)
unfolding added
added-IsCache k e c fresh h = record {
  distinct_keys = (fresh, h.distinct_keys);
  distinct_uses = (h.same_keys k ∙ fresh, h.distinct_uses);
  same_keys = λ q. ap (λ m. bytes_eq k q || m) (h.same_keys q);
  as_many = ap suc h.as_many;
  counted = let all = h.counted in omega arith;
}

-- No entry is left under a key after it is erased.
erase_found_gone :
    (k : Bytes) (found : Option CacheEntry) (c : ReadCache)
    → find_entry k c.entries ≡ found
    → IsCache c
    → mem k (keys (erase_found k found c).entries) ≡ false
unfolding erase_found cache_erase
erase_found_gone k none c f h = find_entry-none k c.entries f
erase_found_gone k (some e) c f h =
    find_entry-none k (remove_entry k c.entries)
      (rw (find_entry-remove_entry k k c.entries h.distinct_keys, bytes_eq_refl k) refl)

pub put_first-IsCache :
    (path : Bytes) (e : CacheEntry) (c : ReadCache) → IsCache c → IsCache (put_first path e c)
unfolding put_first
put_first-IsCache path e c h =
    added-IsCache path e _ (erase_found_gone path _ c refl h) (erase_found-IsCache path _ c refl h)

pub cache_put-IsCache :
    (path : Bytes) (mtime_ns : ℤ) (size : ℕ) (contents : Bytes) (c : ReadCache)
    → IsCache c
    → IsCache (cache_put path mtime_ns size contents c)
unfolding cache_put evict_locked
cache_put-IsCache path mtime_ns size contents c h =
    evict_loop-IsCache _ _ (put_first-IsCache path _ c h)

pub limited-IsCache : (cap : ℕ) (c : ReadCache) → IsCache c → IsCache (record c { cap = cap })
limited-IsCache cap c h = record {
  distinct_keys = h.distinct_keys;
  distinct_uses = h.distinct_uses;
  same_keys = h.same_keys;
  as_many = h.as_many;
  counted = h.counted;
}

pub set_read_cache_limit-IsCache :
    (cap : ℕ) (c : ReadCache) → IsCache c → IsCache (set_read_cache_limit cap c)
unfolding set_read_cache_limit evict_locked
set_read_cache_limit-IsCache cap c h = evict_loop-IsCache _ _ (limited-IsCache cap c h)
