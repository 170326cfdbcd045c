-- ===== src/Client/Cache/Bounded.antt =====
-- The eviction: it ends within the limit or with one entry, and never takes the key used last.
use wsldrive.Prelude.{
  ℕ, zero, suc, ◌≤◌, ◌<◌, ◌≡◌, ◌⊎◌, refl, sym, ap, ◌∙◌, true, false, ◌&&◌, List, ◌∷◌, Bytes,
  bytes_eq, bytes_eq_sound, bytes_eq_refl, length, Option, none, some, Option-cases, List-cases,
  Bool-cases, inl, inr, ltb, ltb→lt, &&_iff, if_elim, arith,
}
use wsldrive.Prelude.Int.{ℤ}
use mathlib.Core.Path.{subst}
use wsldrive.Client.Cache.{
  CacheEntry, ReadCache, find_entry, remove_key, cache_erase, last_key, drop_last, put_first, added,
  evict_one, evict_loop, evict_locked, cache_put, set_read_cache_limit,
}
use wsldrive.Client.Cache.Keys.{
  mem, Distinct, mem-find_entry, mem-last_key, length-remove_key, find_entry-remove_entry,
}
use wsldrive.Client.Cache.Invariant.{
  IsCache, victim_found, evict_one-IsCache, put_first-IsCache, limited-IsCache,
}

-- Within the limit, or a single entry.
abbrev pub IsBounded : ReadCache → Type 0
IsBounded c = (c.held ≤ c.cap) ⊎ (length c.entries ≤ 1)

evict_one_shorter :
    (c : ReadCache) (found : Option CacheEntry) (fuel : ℕ)
    → find_entry (last_key c.lru) c.entries ≡ found
    → IsCache c
    → length c.lru ≤ suc fuel
    → length (evict_one (last_key c.lru) found c).lru ≤ fuel
unfolding evict_one cache_erase drop_last
evict_one_shorter c none fuel f h few = rw (victim_found c h f) (omega arith)
evict_one_shorter c (some e) fuel f h few =
    let one =
      length-remove_key (last_key c.lru) c.lru
        (h.same_keys (last_key c.lru) ∙ mem-find_entry (last_key c.lru) c.entries e f) in
    omega arith

settled : (c : ReadCache) → (ltb c.cap c.held && ltb 1 (length c.entries)) ≡ false → IsBounded c
settled c h = elim (Bool-cases (ltb c.cap c.held)) [
  | inl b ↦ inr (few b h)
  | inr b ↦ inl (ground arith)
]
  where
    few :
        ltb c.cap c.held ≡ true
        → (ltb c.cap c.held && ltb 1 (length c.entries)) ≡ false
        → length c.entries ≤ 1
    few b = rw b (λ h. ground arith)

pub evict_loop-IsBounded :
    (fuel : ℕ) (c : ReadCache) → IsCache c → length c.lru ≤ fuel → IsBounded (evict_loop fuel c)
unfolding evict_loop
evict_loop-IsBounded zero c h few = inr (let many = h.as_many in omega arith)
evict_loop-IsBounded (suc fuel) c h few =
    let found = find_entry (last_key c.lru) c.entries in
    if_elim IsBounded (ltb c.cap c.held && ltb 1 (length c.entries))
      (evict_loop fuel (evict_one (last_key c.lru) found c)) c
      (λ _.
        evict_loop-IsBounded fuel _ (evict_one-IsCache c found refl h)
          (evict_one_shorter c found fuel refl h few))
      (settled c)

-- The last of several keys is not the first.
last_key_other :
    (k q : Bytes) (qs : List Bytes)
    → mem k (q ∷ qs) ≡ false
    → (bytes_eq k (last_key (q ∷ qs)) ≡ false) × (bytes_eq (last_key (q ∷ qs)) k ≡ false)
last_key_other k q qs h = (differ (λ e. e), differ sym)
  where
    clash : k ≡ last_key (q ∷ qs) → ⊥
    clash e =
        let held = subst (λ (y : Bytes). mem y (q ∷ qs) ≡ true) (sym e) (mem-last_key q qs) in
        absurd (cc)

    differ : {x y : Bytes} → (x ≡ y → k ≡ last_key (q ∷ qs)) → bytes_eq x y ≡ false
    differ {x} {y} f = elim (Bool-cases (bytes_eq x y)) [
      | inl b ↦ absurd (clash (f (bytes_eq_sound x y b)))
      | inr b ↦ b
    ]

-- What an eviction leaves of the key used last.
pub record IsFirst (k : Bytes) (e : CacheEntry) (c : ReadCache) : Type 0 where
  pub older : List Bytes
  pub front : c.lru ≡ k ∷ older
  pub found : find_entry k c.entries ≡ some e

erased-IsFirst :
    (k last : Bytes) (e v : CacheEntry) (c : ReadCache)
    → IsCache c
    → bytes_eq k last ≡ false
    → bytes_eq last k ≡ false
    → IsFirst k e c
    → IsFirst k e (cache_erase last v c)
unfolding cache_erase remove_key
erased-IsFirst k last e v c h differ differs first = record {
  older = remove_key last first.older;
  front = rw (first.front, differ) refl;
  found = rw (find_entry-remove_entry last k c.entries h.distinct_keys, differs) first.found;
}

evict_one-IsFirst :
    (k : Bytes) (e : CacheEntry) (c : ReadCache)
    → IsCache c
    → (1 < length c.entries)
    → IsFirst k e c
    → IsFirst k e (evict_one (last_key c.lru) (find_entry (last_key c.lru) c.entries) c)
unfolding evict_one last_key
evict_one-IsFirst k e c h many first = elim (List-cases first.older) [
  | inl o ↦
      absurd (
        let one : length c.lru ≡ 1 = rw (first.front, o) refl in let all = h.as_many in omega arith)
  | inr (q, qs, o) ↦ elim (Option-cases (find_entry (last_key c.lru) c.entries)) [
    | inl f ↦ absurd (let empty = victim_found c h f in let full = first.front in cc)
    | inr (v, f) ↦ rw f (taken q qs v (first.front ∙ ap (◌∷◌ k) o))
  ]
]
  where
    taken :
        (q : Bytes) (qs : List Bytes) (v : CacheEntry)
        → c.lru ≡ k ∷ q ∷ qs
        → IsFirst k e (cache_erase (last_key c.lru) v c)
    taken q qs v front =
        let unused : mem k (q ∷ qs) ≡ false = (subst Distinct front h.distinct_uses).0 in
        let (differ, differs) = last_key_other k q qs unused in
        erased-IsFirst k (last_key c.lru) e v c h (rw front differ) (rw front differs) first

pub evict_loop-IsFirst :
    (fuel : ℕ) (k : Bytes) (e : CacheEntry) (c : ReadCache)
    → IsCache c
    → IsFirst k e c
    → IsFirst k e (evict_loop fuel c)
unfolding evict_loop
evict_loop-IsFirst zero k e c h first = first
evict_loop-IsFirst (suc fuel) k e c h first =
    if_elim (IsFirst k e) (ltb c.cap c.held && ltb 1 (length c.entries))
      (evict_loop fuel (evict_one (last_key c.lru) (find_entry (last_key c.lru) c.entries) c)) c
      (λ b.
        evict_loop-IsFirst fuel k e _ (evict_one-IsCache c _ refl h)
          (evict_one-IsFirst k e c h (several c b) first))
      (λ _. first)
  where
    several :
        (c : ReadCache)
        → (ltb c.cap c.held && ltb 1 (length c.entries)) ≡ true
        → 1 < length c.entries
    several c b =
        ltb→lt 1 (length c.entries) (((&&_iff (ltb c.cap c.held) (ltb 1 (length c.entries))).0 b).1)

-- What is put is found, whatever the limit evicts.
pub find_entry-cache_put :
    (path : Bytes) (mtime_ns : ℤ) (size : ℕ) (contents : Bytes) (c : ReadCache)
    → IsCache c
    → find_entry path (cache_put path mtime_ns size contents c).entries
      ≡ some (record { mtime_ns = mtime_ns; size = size; contents = contents })
unfolding cache_put evict_locked put_first added find_entry
find_entry-cache_put path mtime_ns size contents c h =
    (evict_loop-IsFirst _ path _ _ (put_first-IsCache path _ c h)
      (record { older = _; front = refl; found = rw (bytes_eq_refl path) refl })).found

pub cache_put-IsBounded :
    (path : Bytes) (mtime_ns : ℤ) (size : ℕ) (contents : Bytes) (c : ReadCache)
    → IsCache c
    → IsBounded (cache_put path mtime_ns size contents c)
unfolding cache_put evict_locked put_first added
cache_put-IsBounded path mtime_ns size contents c h =
    evict_loop-IsBounded _ _ (put_first-IsCache path _ c h) (omega arith)

pub set_read_cache_limit-IsBounded :
    (cap : ℕ) (c : ReadCache) → IsCache c → IsBounded (set_read_cache_limit cap c)
unfolding set_read_cache_limit evict_locked
set_read_cache_limit-IsBounded cap c h =
    evict_loop-IsBounded _ _ (limited-IsCache cap c h) (omega arith)
