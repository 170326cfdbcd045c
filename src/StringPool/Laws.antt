-- ===== src/StringPool/Laws.antt =====
-- `intern`, `find` and `view`: ids stand for strings, one each.
use wsldrive.Prelude.{
  ℕ, zero, suc, ◌≡◌, refl, ap, List, [], ◌∷◌, ◌++◌, Bytes, bytes_eq, bytes_eq_sound, bytes_eq_refl,
  All, length, get_elem?, none, some, if◌then◌else◌, if_elim, Option-cases, inl, inr, ◌⊎◌,
}
use mathlib.Core.Path.{subst}
use wsldrive.StringPool.{StringPool, empty_pool, find_index, find, add, intern, view}

-- Every indexed id is that of an entry with the string.
pub record IsPool (pool : StringPool) : Type 0 where
  pub indexed : All (λ it. get_elem? pool.entries it.1 ≡ some it.0) pool.index
  pub covered :
      (id : ℕ) (s : Bytes) → get_elem? pool.entries id ≡ some s → find_index s pool.index ≡ some id

get_elem?-append :
    (id : ℕ) (s : Bytes) (xs ys : List Bytes)
    → get_elem? xs id ≡ some s
    → get_elem? (xs ++ ys) id ≡ some s
get_elem?-append id s [] ys h = absurd (cc)
get_elem?-append zero s (x ∷ xs) ys h = h
get_elem?-append (suc id) s (x ∷ xs) ys h = get_elem?-append id s xs ys h

get_elem?_last : (xs : List Bytes) (s : Bytes) → get_elem? (xs ++ s ∷ []) (length xs) ≡ some s
get_elem?_last [] s = refl
get_elem?_last (x ∷ xs) s = get_elem?_last xs s

get_elem?_snoc :
    (id : ℕ) (s t : Bytes) (xs : List Bytes)
    → get_elem? (xs ++ t ∷ []) id ≡ some s
    → (get_elem? xs id ≡ some s) ⊎ ((id ≡ length xs) × (s ≡ t))
get_elem?_snoc zero s t [] h = inr (refl, cc)
get_elem?_snoc (suc id) s t [] h = absurd (cc)
get_elem?_snoc zero s t (x ∷ xs) h = inl h
get_elem?_snoc (suc id) s t (x ∷ xs) h = elim (get_elem?_snoc id s t xs h) [
  | inl e ↦ inl e
  | inr e ↦ inr (ap suc e.0, e.1)
]

find_index-All :
    (P : Bytes → ℕ → Type 0) (s : Bytes) (id : ℕ) (l : List (Bytes × ℕ))
    → All (λ it. P it.0 it.1) l
    → find_index s l ≡ some id
    → P s id
unfolding find_index
find_index-All P s id [] h e = absurd (cc)
find_index-All P s id ((t, i) ∷ l) h e =
    let rest : find_index s l ≡ some id → P s id = λ k. find_index-All P s id l h.1 k in
    if_elim (λ o. o ≡ some id → P s id) (bytes_eq t s) _ _
      (λ b k. subst (P s) (some_inj i id k) (subst (λ x. P x i) (bytes_eq_sound t s b) h.0))
      (λ b k. rest k) e
  where
    some_inj : (i j : ℕ) → some i ≡ some j → i ≡ j
    some_inj i j e = cc

pub empty_pool-IsPool : IsPool empty_pool
unfolding empty_pool
empty_pool-IsPool = record { indexed = tt; covered = λ id s h. absurd (cc) }

indexed_still :
    (xs ys : List Bytes) (l : List (Bytes × ℕ))
    → All (λ it. get_elem? xs it.1 ≡ some it.0) l
    → All (λ it. get_elem? (xs ++ ys) it.1 ≡ some it.0) l
indexed_still xs ys [] h = tt
indexed_still xs ys (it ∷ l) h = (get_elem?-append it.1 it.0 xs ys h.0, indexed_still xs ys l h.1)

add_covered :
    (s t : Bytes) (id : ℕ) (pool : StringPool)
    → find_index s pool.index ≡ none
    → IsPool pool
    → (get_elem? pool.entries id ≡ some t) ⊎ ((id ≡ length pool.entries) × (t ≡ s))
    → (if bytes_eq s t then some (length pool.entries) else find_index t pool.index) ≡ some id
add_covered s t id pool fresh w (inl e) =
    let found = w.covered id t e in
    if_elim (λ o. o ≡ some id) (bytes_eq s t) _ _
      (λ b. absurd (let same = bytes_eq_sound s t b in cc)) (λ b. found)
add_covered s t id pool fresh w (inr e) = rw (e.1, bytes_eq_refl s, e.0) refl

add-IsPool :
    (pool : StringPool) (s : Bytes)
    → find_index s pool.index ≡ none
    → IsPool pool
    → IsPool (add pool s)
unfolding add find_index
add-IsPool pool s fresh w = record {
  indexed =
      (get_elem?_last pool.entries s, indexed_still pool.entries (s ∷ []) pool.index w.indexed);
  covered = λ id t h. add_covered s t id pool fresh w (get_elem?_snoc id t s pool.entries h);
}

-- What `intern` promises: the id shows the string and is found for it, and ids given out before
-- still show what they did.
pub record IsInterned (pool : StringPool) (s : Bytes) (after : ℕ × StringPool) : Type 0 where
  pub pool_again : IsPool after.1
  pub shows : view after.1 after.0 ≡ s
  pub found : find after.1 s ≡ some after.0
  pub stable :
      (id : ℕ) (t : Bytes)
      → get_elem? pool.entries id ≡ some t
      → get_elem? after.1.entries id ≡ some t

view_of :
    (pool : StringPool) (id : ℕ) (s : Bytes) → get_elem? pool.entries id ≡ some s → view pool id ≡ s
unfolding view
view_of pool id s h = rw (h, view) refl

-- In a pool, interning a string keeps it a pool, the id shows the string and is found for it, and the
-- ids given out before show what they did.
pub intern-IsInterned :
    (pool : StringPool) (s : Bytes) → IsPool pool → IsInterned pool s (intern pool s)
unfolding intern
intern-IsInterned pool s w = elim (Option-cases (find_index s pool.index)) [
  | inl fresh ↦
      rw (fresh, intern)
        (record {
          pool_again = add-IsPool pool s fresh w;
          shows = unfold add in view_of _ (length pool.entries) s (get_elem?_last pool.entries s);
          found = unfold find add find_index in rw (bytes_eq_refl s) refl;
          stable = λ id t h. unfold add in get_elem?-append id t pool.entries (s ∷ []) h;
        })
  | inr (id, known) ↦
      rw (known, intern)
        (record {
          pool_again = w;
          shows = view_of pool id s (
              find_index-All (λ t i. get_elem? pool.entries i ≡ some t) s id pool.index w.indexed
                known);
          found = unfold find in known;
          stable = λ i t h. h;
        })
]

-- In a pool, two strings with the same id are the same.
pub find_inj :
    (pool : StringPool) (s t : Bytes) (id : ℕ)
    → IsPool pool
    → find pool s ≡ some id
    → find pool t ≡ some id
    → s ≡ t
unfolding find
find_inj pool s t id w h k =
    let a = find_index-All (λ u i. get_elem? pool.entries i ≡ some u) s id pool.index w.indexed h in
    let b = find_index-All (λ u i. get_elem? pool.entries i ≡ some u) t id pool.index w.indexed k in
    cc
