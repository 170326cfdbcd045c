-- ===== src/Client/Cache/Hits.antt =====
-- What a read finds in the cache, and the bytes of it that it gets.
use wsldrive.Prelude.{
  ℕ, ◌+◌, ◌-◌, ◌≡◌, refl, ap, true, ==_refl, leb, min, Bytes, length, take, drop, some, Bool-cases,
  inl, inr, arith,
}
use wsldrive.Prelude.Int.{ℤ, pos, negsuc}
use wsldrive.Client.Cache.{ReadCache, cache_put, hit, cached, same_time, slice, copied}
use wsldrive.Client.Cache.Invariant.{IsCache}
use wsldrive.Client.Cache.Bounded.{find_entry-cache_put}

same_time_refl : (t : ℤ) → same_time t t ≡ true
unfolding same_time
same_time_refl (pos a) = ==_refl a
same_time_refl (negsuc a) = ==_refl a

-- Contents that are put are a hit for their version, whatever the limit evicts.
pub cached-cache_put :
    (path : Bytes) (mtime_ns : ℤ) (size : ℕ) (contents : Bytes) (c : ReadCache)
    → IsCache c
    → (cached path mtime_ns size (cache_put path mtime_ns size contents c)).0 ≡ some contents
unfolding cached hit
cached-cache_put path mtime_ns size contents c h =
    rw (find_entry-cache_put path mtime_ns size contents c h, same_time_refl mtime_ns, ==_refl size)
      refl

-- A hit of `read_into` copies what `read` slices off, for every offset and length.
pub copied-slice :
    (contents : Bytes) (offset len : ℕ) → copied contents offset len ≡ slice contents offset len
unfolding copied slice
copied-slice contents offset len = elim (Bool-cases (leb (length contents) offset)) [
  | inl b ↦ rw b refl
  | inr b ↦ rw b (ap (λ n. take n (drop offset contents)) same_end)
]
  where
    same_end : min len (length contents - offset) ≡ min (offset + len) (length contents) - offset
    same_end = omega arith
