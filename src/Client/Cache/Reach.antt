-- ===== src/Client/Cache/Reach.antt =====
-- The states of the cache: an empty one, and what the operations make of it in any order.
use wsldrive.Prelude.{
  ℕ, suc, ◌≤◌, ◌≡◌, refl, ◌&&◌, ◌==◌, List, [], ◌∷◌, Bytes, bytes_eq, length, ◌∙◌, Option, none,
  some, inl, inr, if_elim, arith,
}
use wsldrive.Prelude.Int.{ℤ}
use wsldrive.Client.Cache.{
  CacheEntry, Entries, ReadCache, empty_cache, find_entry, remove_entry, cache_erase, erase_found,
  set_read_cache_limit, cache_put, drop_cached, under, erase_under, drop_cached_prefix, touch, hit,
  cached, same_time,
}
use wsldrive.Client.Cache.Invariant.{IsCache, cache_put-IsCache, set_read_cache_limit-IsCache}
use wsldrive.Client.Cache.Bounded.{IsBounded, cache_put-IsBounded, set_read_cache_limit-IsBounded}
use wsldrive.Client.Cache.Prefix.{drop_cached-IsCache, drop_cached_prefix-IsCache, cached-IsCache}

pub data Reach : ReadCache → Type 0 where
  start : Reach empty_cache
  put :
      (path : Bytes) (mtime_ns : ℤ) (size : ℕ) (contents : Bytes) (c : ReadCache)
      → Reach c
      → Reach (cache_put path mtime_ns size contents c)
  drop_one : (path : Bytes) (c : ReadCache) → Reach c → Reach (drop_cached path c)
  drop_all : (dir : Bytes) (c : ReadCache) → Reach c → Reach (drop_cached_prefix dir c)
  look :
      (k : Bytes) (mtime_ns : ℤ) (size : ℕ) (c : ReadCache)
      → Reach c
      → Reach (cached k mtime_ns size c).1
  set_limit : (cap : ℕ) (c : ReadCache) → Reach c → Reach (set_read_cache_limit cap c)

-- The same limit, and no more bytes or entries.
record Shrinks (c d : ReadCache) : Type 0 where
  same_cap : d.cap ≡ c.cap
  less_held : d.held ≤ c.held
  fewer : length d.entries ≤ length c.entries

Shrinks-IsBounded : (c d : ReadCache) → Shrinks c d → IsBounded c → IsBounded d
Shrinks-IsBounded c d s (inl h) =
    inl (let cap = s.same_cap in let held = s.less_held in omega arith)
Shrinks-IsBounded c d s (inr h) = inr (let few = s.fewer in omega arith)

same : {c : ReadCache} → Shrinks c c
same = record { same_cap = refl; less_held = omega arith; fewer = omega arith }

Shrinks-trans : (c d e : ReadCache) → Shrinks c d → Shrinks d e → Shrinks c e
Shrinks-trans c d e s t =
    let a = s.less_held in
    let b = t.less_held in
    let x = s.fewer in
    let y = t.fewer in
    record { same_cap = t.same_cap ∙ s.same_cap; less_held = omega arith; fewer = omega arith }

relinked :
    {c d : ReadCache} {links : List (Bytes × Bytes)}
    → Shrinks c d
    → Shrinks c (record d { links = links })
relinked s = record { same_cap = s.same_cap; less_held = s.less_held; fewer = s.fewer }

remove_entry_fewer : (k : Bytes) (es : Entries) → length (remove_entry k es) ≤ length es
unfolding remove_entry
remove_entry_fewer k [] = omega arith
remove_entry_fewer k ((q, e) ∷ es) =
    if_elim (λ (r : Entries). length r ≤ suc (length es)) (bytes_eq q k) es
      ((q, e) ∷ remove_entry k es) (λ _. omega arith)
      (λ _. let fewer = remove_entry_fewer k es in omega arith)

cache_erase-Shrinks : (k : Bytes) (e : CacheEntry) (c : ReadCache) → Shrinks c (cache_erase k e c)
unfolding cache_erase
cache_erase-Shrinks k e c = record {
  same_cap = refl;
  less_held = omega arith;
  fewer = remove_entry_fewer k c.entries;
}

erase_found-Shrinks :
    (k : Bytes) (found : Option CacheEntry) (c : ReadCache) → Shrinks c (erase_found k found c)
unfolding erase_found
erase_found-Shrinks k none c = same
erase_found-Shrinks k (some e) c = cache_erase-Shrinks k e c

erase_under-Shrinks :
    (dir : Bytes) (es : Entries) (c : ReadCache) → Shrinks c (erase_under dir es c)
unfolding erase_under
erase_under-Shrinks dir [] c = same
erase_under-Shrinks dir ((k, e) ∷ es) c =
    if_elim (Shrinks c) (under dir k) (erase_under dir es (cache_erase k e c))
      (erase_under dir es c)
      (λ _.
        Shrinks-trans c _ _ (cache_erase-Shrinks k e c)
          (erase_under-Shrinks dir es (cache_erase k e c)))
      (λ _. erase_under-Shrinks dir es c)

drop_cached-Shrinks : (path : Bytes) (c : ReadCache) → Shrinks c (drop_cached path c)
unfolding drop_cached
drop_cached-Shrinks path c = relinked (erase_found-Shrinks path (find_entry path c.entries) c)

drop_cached_prefix-Shrinks : (dir : Bytes) (c : ReadCache) → Shrinks c (drop_cached_prefix dir c)
unfolding drop_cached_prefix
drop_cached_prefix-Shrinks dir c = relinked (erase_under-Shrinks dir c.entries c)

cached-Shrinks :
    (k : Bytes) (mtime_ns : ℤ) (size : ℕ) (c : ReadCache) → Shrinks c (cached k mtime_ns size c).1
unfolding cached hit touch
cached-Shrinks k mtime_ns size c = of_hit (find_entry k c.entries)
  where
    of_hit : (found : Option CacheEntry) → Shrinks c (hit k mtime_ns size c found).1
    of_hit none = same
    of_hit (some e) =
        if_elim (λ (r : Option Bytes × ReadCache). Shrinks c r.1)
          (same_time e.mtime_ns mtime_ns && (e.size == size)) (some e.contents, touch k c) (none, c)
          (λ _. record { same_cap = refl; less_held = omega arith; fewer = omega arith })
          (λ _. same)

pub empty_cache-IsCache : IsCache empty_cache
unfolding empty_cache
empty_cache-IsCache = record {
  distinct_keys = tt;
  distinct_uses = tt;
  same_keys = λ k. refl;
  as_many = refl;
  counted = refl;
}

empty_cache-IsBounded : IsBounded empty_cache
unfolding empty_cache
empty_cache-IsBounded = inr (omega arith)

-- In every history, the list of uses has the cached keys, the bytes that are counted are those of the
-- entries, and they are within the limit unless a single entry is left.
pub Reach-IsCache : (c : ReadCache) → Reach c → IsCache c × IsBounded c
Reach-IsCache c start = (empty_cache-IsCache, empty_cache-IsBounded)
Reach-IsCache c (put path mtime_ns size contents d r) =
    let (h, _) = Reach-IsCache d r in
    (
      cache_put-IsCache path mtime_ns size contents d h,
      cache_put-IsBounded path mtime_ns size contents d h,
    )
Reach-IsCache c (drop_one path d r) =
    let (h, b) = Reach-IsCache d r in
    (drop_cached-IsCache path d h, Shrinks-IsBounded d _ (drop_cached-Shrinks path d) b)
Reach-IsCache c (drop_all dir d r) =
    let (h, b) = Reach-IsCache d r in
    (drop_cached_prefix-IsCache dir d h, Shrinks-IsBounded d _ (drop_cached_prefix-Shrinks dir d) b)
Reach-IsCache c (look k mtime_ns size d r) =
    let (h, b) = Reach-IsCache d r in
    (cached-IsCache k mtime_ns size d h, Shrinks-IsBounded d _ (cached-Shrinks k mtime_ns size d) b)
Reach-IsCache c (set_limit cap d r) =
    let (h, _) = Reach-IsCache d r in
    (set_read_cache_limit-IsCache cap d h, set_read_cache_limit-IsBounded cap d h)
