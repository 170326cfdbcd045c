-- ===== src/Client/Cache/Prefix.antt =====
-- What the invalidations and the hits leave of the cache.
use wsldrive.Prelude.{
  ℕ, ◌≡◌, refl, sym, ap, ◌∙◌, Bool, true, false, not, ◌&&◌, ◌||◌, List, [], ◌∷◌, Bytes, bytes_eq,
  bytes_eq_sound, bytes_eq_refl, ◌==◌, Option, none, some, Bool-cases, inl, inr, if◌then◌else◌,
  if_elim, arith,
}
use wsldrive.Prelude.Int.{ℤ}
use mathlib.Core.Path.{subst}
use wsldrive.Client.Cache.{
  CacheEntry, Entries, ReadCache, find_entry, remove_entry, cache_erase, erase_found, drop_cached,
  under, erase_under, drop_cached_prefix, touch, hit, cached, same_time,
}
use wsldrive.Client.Cache.Keys.{
  mem, keys, Distinct, neither, unequal_comm, mem-find_entry, find_entry_missing, mem-remove_key,
  Distinct-remove_key, length-remove_key, find_entry-remove_entry,
}
use wsldrive.Client.Cache.Invariant.{IsCache, cache_erase-IsCache, erase_found-IsCache}

-- Links are no part of the invariant.
pub relinked-IsCache :
    (links : List (Bytes × Bytes)) (c : ReadCache)
    → IsCache c
    → IsCache (record c { links = links })
relinked-IsCache links c h = record {
  distinct_keys = h.distinct_keys;
  distinct_uses = h.distinct_uses;
  same_keys = h.same_keys;
  as_many = h.as_many;
  counted = h.counted;
}

pub drop_cached-IsCache : (path : Bytes) (c : ReadCache) → IsCache c → IsCache (drop_cached path c)
unfolding drop_cached
drop_cached-IsCache path c h = relinked-IsCache _ _ (erase_found-IsCache path _ c refl h)

pub find_entry-drop_cached :
    (path k : Bytes) (c : ReadCache)
    → IsCache c
    → find_entry k (drop_cached path c).entries
      ≡ (if bytes_eq path k then none else find_entry k c.entries)
unfolding drop_cached erase_found cache_erase
find_entry-drop_cached path k c h = erased (find_entry path c.entries) refl
  where
    erased :
        (found : Option CacheEntry)
        → find_entry path c.entries ≡ found
        → find_entry k (erase_found path found c).entries
          ≡ (if bytes_eq path k then none else find_entry k c.entries)
    erased none f = elim (Bool-cases (bytes_eq path k)) [
      | inl b ↦
          rw b (subst (λ (q : Bytes). find_entry q c.entries ≡ none) (bytes_eq_sound path k b) f)
      | inr b ↦ rw b refl
    ]
    erased (some e) f = find_entry-remove_entry path k c.entries h.distinct_keys

abbrev AllFound : Entries → Entries → Type 0
AllFound [] all = Unit {0}
AllFound ((k, e) ∷ es) all = (find_entry k all ≡ some e) × AllFound es all

AllFound-cons :
    (x : Bytes) (d : CacheEntry) (es all : Entries)
    → mem x (keys es) ≡ false
    → AllFound es all
    → AllFound es ((x, d) ∷ all)
unfolding find_entry
AllFound-cons x d [] all fresh a = tt
AllFound-cons x d ((k, e) ∷ es) all fresh a =
    let (other, rest) = neither (bytes_eq k x) (mem x (keys es)) fresh in
    (rw (unequal_comm k x other) a.0, AllFound-cons x d es all rest a.1)

AllFound-self : (es : Entries) → Distinct (keys es) → AllFound es es
unfolding find_entry
AllFound-self [] h = tt
AllFound-self ((k, e) ∷ es) h =
    (rw (bytes_eq_refl k) refl, AllFound-cons k e es es h.0 (AllFound-self es h.1))

AllFound-remove_entry :
    (k : Bytes) (es all : Entries)
    → Distinct (keys all)
    → mem k (keys es) ≡ false
    → AllFound es all
    → AllFound es (remove_entry k all)
AllFound-remove_entry k [] all h fresh a = tt
AllFound-remove_entry k ((q, e) ∷ es) all h fresh a =
    let (other, rest) = neither (bytes_eq q k) (mem k (keys es)) fresh in
    (
      rw (find_entry-remove_entry k q all h, unequal_comm q k other) a.0,
      AllFound-remove_entry k es all h rest a.1,
    )

pub erase_under-IsCache :
    (dir : Bytes) (es : Entries) (c : ReadCache)
    → Distinct (keys es)
    → AllFound es c.entries
    → IsCache c
    → IsCache (erase_under dir es c)
unfolding erase_under cache_erase
erase_under-IsCache dir [] c d a h = h
erase_under-IsCache dir ((k, e) ∷ es) c d a h =
    if_elim IsCache (under dir k) (erase_under dir es (cache_erase k e c)) (erase_under dir es c)
      (λ _.
        erase_under-IsCache dir es (cache_erase k e c) d.1
          (AllFound-remove_entry k es c.entries h.distinct_keys d.0 a.1)
          (cache_erase-IsCache k e c a.0 h))
      (λ _. erase_under-IsCache dir es c d.1 a.1 h)

-- What is found after a key is dropped or kept, and the keys behind it are gone through.
swept :
    (u v b m : Bool) (f : Option CacheEntry)
    → (b ≡ true → u ≡ v)
    → (if u then (if v && m then none else if b then none else f) else (if v && m then none else f))
      ≡ (if v && (b || m) then none else f)
swept true true true true f h = refl
swept true true true false f h = refl
swept true true false m f h = refl
swept true false true m f h = absurd (let same = h refl in cc)
swept true false false m f h = refl
swept false true true m f h = absurd (let same = h refl in cc)
swept false true false m f h = refl
swept false false b m f h = refl

find_entry-erase_under :
    (dir : Bytes) (es : Entries) (c : ReadCache) (q : Bytes)
    → Distinct (keys es)
    → AllFound es c.entries
    → IsCache c
    → find_entry q (erase_under dir es c).entries
      ≡ (if under dir q && mem q (keys es) then none else find_entry q c.entries)
unfolding erase_under cache_erase
find_entry-erase_under dir [] c q d a h = elim (Bool-cases (under dir q)) [
  | inl b ↦ rw b refl
  | inr b ↦ rw b refl
]
find_entry-erase_under dir ((k, e) ∷ es) c q d a h = elim (Bool-cases (under dir k)) [
  | inl b ↦ rw b (
      find_entry-erase_under dir es (cache_erase k e c) q d.1
        (AllFound-remove_entry k es c.entries h.distinct_keys d.0 a.1)
        (cache_erase-IsCache k e c a.0 h)
      ∙ (rw (find_entry-remove_entry k q c.entries h.distinct_keys) (
          swept true (under dir q) (bytes_eq k q) (mem q (keys es)) (find_entry q c.entries)
            (alike b))))
  | inr b ↦ rw b (
      find_entry-erase_under dir es c q d.1 a.1 h
      ∙ swept false (under dir q) (bytes_eq k q) (mem q (keys es)) (find_entry q c.entries)
          (alike b))
]
  where
    alike : {u : Bool} → under dir k ≡ u → bytes_eq k q ≡ true → u ≡ under dir q
    alike b e = sym b ∙ ap (under dir) (bytes_eq_sound k q e)

pub drop_cached_prefix-IsCache :
    (dir : Bytes) (c : ReadCache) → IsCache c → IsCache (drop_cached_prefix dir c)
unfolding drop_cached_prefix
drop_cached_prefix-IsCache dir c h = relinked-IsCache _ _ (
    erase_under-IsCache dir c.entries c h.distinct_keys (AllFound-self c.entries h.distinct_keys) h)

pub find_entry-drop_cached_prefix :
    (dir : Bytes) (c : ReadCache) (k : Bytes)
    → IsCache c
    → find_entry k (drop_cached_prefix dir c).entries
      ≡ (if under dir k then none else find_entry k c.entries)
unfolding drop_cached_prefix
find_entry-drop_cached_prefix dir c k h =
    find_entry-erase_under dir c.entries c k h.distinct_keys
      (AllFound-self c.entries h.distinct_keys) h
    ∙ (elim (Bool-cases (mem k (keys c.entries))) [
      | inl m ↦ rw m (elim (Bool-cases (under dir k)) [ inl b ↦ rw b refl | inr b ↦ rw b refl ])
      | inr m ↦
          rw (m, find_entry_missing k c.entries m)
            (elim (Bool-cases (under dir k)) [ inl b ↦ rw b refl | inr b ↦ rw b refl ])
    ])

touched :
    (k q : Bytes) (m n : Bool)
    → m ≡ n
    → (bytes_eq k q ≡ true → n ≡ true)
    → (bytes_eq k q || (m && not (bytes_eq k q))) ≡ n
touched k q m n e h = elim (Bool-cases (bytes_eq k q)) [
  | inl b ↦ rw (b, h b) refl
  | inr b ↦ rw (b, e) (elim (Bool-cases n) [ inl x ↦ rw x refl | inr x ↦ rw x refl ])
]

pub touch-IsCache :
    (k : Bytes) (e : CacheEntry) (c : ReadCache)
    → find_entry k c.entries ≡ some e
    → IsCache c
    → IsCache (touch k c)
unfolding touch
touch-IsCache k e c f h = record {
  distinct_keys = h.distinct_keys;
  distinct_uses = (
    rw (mem-remove_key k k c.lru h.distinct_uses, bytes_eq_refl k, h.same_keys k, stored) refl,
    Distinct-remove_key k c.lru h.distinct_uses,
  );
  same_keys = λ q. rw (mem-remove_key k q c.lru h.distinct_uses) (
      touched k q (mem q c.lru) (mem q (keys c.entries)) (h.same_keys q)
        (λ b. subst (λ (y : Bytes). mem y (keys c.entries) ≡ true) (bytes_eq_sound k q b) stored));
  as_many =
      let used = length-remove_key k c.lru (h.same_keys k ∙ stored) in
      let many = h.as_many in omega arith;
  counted = h.counted;
}
  where
    stored : mem k (keys c.entries) ≡ true
    stored = mem-find_entry k c.entries e f

pub cached-IsCache :
    (k : Bytes) (mtime_ns : ℤ) (size : ℕ) (c : ReadCache)
    → IsCache c
    → IsCache (cached k mtime_ns size c).1
unfolding cached hit
cached-IsCache k mtime_ns size c h = of_hit (find_entry k c.entries) refl
  where
    of_hit :
        (found : Option CacheEntry)
        → find_entry k c.entries ≡ found
        → IsCache (hit k mtime_ns size c found).1
    of_hit none f = h
    of_hit (some e) f =
        if_elim (λ (r : Option Bytes × ReadCache). IsCache r.1)
          (same_time e.mtime_ns mtime_ns && (e.size == size)) (some e.contents, touch k c) (none, c)
          (λ _. touch-IsCache k e c f h) (λ _. h)
