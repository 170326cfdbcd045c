-- ===== src/Client/Cache/Keys.antt =====
-- Keys that are in a list, and lists without a key.
use wsldrive.Prelude.{
  ℕ, suc, ◌+◌, ◌≡◌, refl, sym, ap, ◌∙◌, Bool, true, false, not, ◌&&◌, ◌||◌, List, [], ◌∷◌, Bytes,
  bytes_eq, bytes_eq_sound, bytes_eq_refl, length, none, some, Bool-cases, inl, inr, ||_right,
  ||_rest, if◌then◌else◌, if_elim, arith,
}
use mathlib.Core.Path.{subst}
use wsldrive.Client.Cache.{CacheEntry, Entries, find_entry, remove_entry, remove_key, last_key}

abbrev pub mem : Bytes → List Bytes → Bool
mem k [] = false
mem k (q ∷ ks) = bytes_eq q k || mem k ks

abbrev pub keys : Entries → List Bytes
keys [] = []
keys ((k, e) ∷ es) = k ∷ keys es

abbrev pub Distinct : List Bytes → Type 0
Distinct [] = Unit {0}
Distinct (k ∷ ks) = (mem k ks ≡ false) × Distinct ks

abbrev pub total : Entries → ℕ
total [] = 0
total ((k, e) ∷ es) = length e.contents + total es

pub keys-remove_entry :
    (k : Bytes) (es : Entries) → keys (remove_entry k es) ≡ remove_key k (keys es)
unfolding remove_entry remove_key
keys-remove_entry k [] = refl
keys-remove_entry k ((q, e) ∷ es) = elim (Bool-cases (bytes_eq q k)) [
  | inl b ↦ rw b refl
  | inr b ↦ rw b (ap (◌∷◌ q) (keys-remove_entry k es))
]

pub mem-find_entry :
    (k : Bytes) (es : Entries) (e : CacheEntry) → find_entry k es ≡ some e → mem k (keys es) ≡ true
unfolding find_entry
mem-find_entry k [] e h = absurd (cc)
mem-find_entry k ((q, d) ∷ es) e h = elim (Bool-cases (bytes_eq q k)) [
  | inl b ↦ rw b refl
  | inr b ↦ ||_right (bytes_eq q k) (mem k (keys es)) (mem-find_entry k es e (rest b h))
]
  where
    rest :
        bytes_eq q k ≡ false
        → (if bytes_eq q k then some d else find_entry k es) ≡ some e
        → find_entry k es ≡ some e
    rest b = rw b (λ h. h)

pub find_entry-none : (k : Bytes) (es : Entries) → find_entry k es ≡ none → mem k (keys es) ≡ false
unfolding find_entry
find_entry-none k [] h = refl
find_entry-none k ((q, d) ∷ es) h = elim (Bool-cases (bytes_eq q k)) [
  | inl b ↦ absurd (hit b h)
  | inr b ↦ rw b (find_entry-none k es (rest b h))
]
  where
    hit : bytes_eq q k ≡ true → (if bytes_eq q k then some d else find_entry k es) ≡ none → ⊥
    hit b = rw b (λ h. absurd (cc))

    rest :
        bytes_eq q k ≡ false
        → (if bytes_eq q k then some d else find_entry k es) ≡ none
        → find_entry k es ≡ none
    rest b = rw b (λ h. h)

pub total-remove_entry :
    (k : Bytes) (es : Entries) (e : CacheEntry)
    → find_entry k es ≡ some e
    → length e.contents + total (remove_entry k es) ≡ total es
unfolding find_entry remove_entry
total-remove_entry k [] e h = absurd (cc)
total-remove_entry k ((q, d) ∷ es) e h = elim (Bool-cases (bytes_eq q k)) [
  | inl b ↦ rw b (ap (λ (x : CacheEntry). length x.contents + total es) (sym (hit b h)))
  | inr b ↦ rw b (let ih = total-remove_entry k es e (rest b h) in omega arith)
]
  where
    hit : bytes_eq q k ≡ true → (if bytes_eq q k then some d else find_entry k es) ≡ some e → d ≡ e
    hit b = rw b (λ h. cc)

    rest :
        bytes_eq q k ≡ false
        → (if bytes_eq q k then some d else find_entry k es) ≡ some e
        → find_entry k es ≡ some e
    rest b = rw b (λ h. h)

unlike : (x k q : Bytes) → bytes_eq x k ≡ false → bytes_eq x q ≡ true → bytes_eq k q ≡ false
unlike x k q b a = elim (Bool-cases (bytes_eq k q)) [
  | inl c ↦ absurd (clash (bytes_eq_sound x q a ∙ sym (bytes_eq_sound k q c)))
  | inr c ↦ c
]
  where
    clash : x ≡ k → ⊥
    clash e =
        let same : bytes_eq x k ≡ true =
          subst (λ (y : Bytes). bytes_eq x y ≡ true) e (bytes_eq_refl x) in
        absurd (cc)

once :
    (x q : Bytes) (ks : List Bytes)
    → mem x ks ≡ false
    → mem q ks ≡ ((bytes_eq x q || mem q ks) && not (bytes_eq x q))
once x q ks h = elim (Bool-cases (bytes_eq x q)) [
  | inl c ↦ rw c (subst (λ (y : Bytes). mem y ks ≡ false) (bytes_eq_sound x q c) h)
  | inr c ↦ rw c (elim (Bool-cases (mem q ks)) [ inl m ↦ rw m refl | inr m ↦ rw m refl ])
]

past : (a m b : Bool) → (a ≡ true → b ≡ false) → (a || (m && not b)) ≡ ((a || m) && not b)
past true m true h = absurd (let f : true ≡ false = h refl in cc)
past true m false h = refl
past false m b h = refl

-- Removal of a key from a list without repetitions.
pub mem-remove_key :
    (k q : Bytes) (ks : List Bytes)
    → Distinct ks
    → mem q (remove_key k ks) ≡ (mem q ks && not (bytes_eq k q))
unfolding remove_key
mem-remove_key k q [] h = refl
mem-remove_key k q (x ∷ ks) h = elim (Bool-cases (bytes_eq x k)) [
  | inl b ↦ rw b (
      subst (λ (y : Bytes). mem q ks ≡ ((bytes_eq x q || mem q ks) && not (bytes_eq y q)))
        (bytes_eq_sound x k b) (once x q ks h.0))
  | inr b ↦
      rw (b, mem-remove_key k q ks h.1)
        (past (bytes_eq x q) (mem q ks) (bytes_eq k q) (unlike x k q b))
]

pub Distinct-remove_key : (k : Bytes) (ks : List Bytes) → Distinct ks → Distinct (remove_key k ks)
unfolding remove_key
Distinct-remove_key k [] h = tt
Distinct-remove_key k (x ∷ ks) h = elim (Bool-cases (bytes_eq x k)) [
  | inl b ↦ rw b h.1
  | inr b ↦ rw (b, mem-remove_key k x ks h.1, h.0) (refl, Distinct-remove_key k ks h.1)
]

pub length-remove_key :
    (k : Bytes) (ks : List Bytes) → mem k ks ≡ true → length (remove_key k ks) + 1 ≡ length ks
unfolding remove_key
length-remove_key k [] h = absurd (cc)
length-remove_key k (x ∷ ks) h = elim (Bool-cases (bytes_eq x k)) [
  | inl b ↦ rw b (omega arith)
  | inr b ↦
      rw b (let ih = length-remove_key k ks (||_rest (bytes_eq x k) (mem k ks) b h) in omega arith)
]

pub neither : (a b : Bool) → (a || b) ≡ false → (a ≡ false) × (b ≡ false)
neither true b h = absurd (cc)
neither false b h = (refl, h)

pub length-keys : (es : Entries) → length (keys es) ≡ length es
length-keys [] = refl
length-keys ((k, e) ∷ es) = ap suc (length-keys es)

pub unequal_comm : (k q : Bytes) → bytes_eq k q ≡ false → bytes_eq q k ≡ false
unequal_comm k q h = elim (Bool-cases (bytes_eq q k)) [
  | inl b ↦ absurd (
      let same =
        subst (λ (y : Bytes). bytes_eq y q ≡ true) (bytes_eq_sound q k b) (bytes_eq_refl q) in
      cc)
  | inr b ↦ b
]

pub find_entry_missing :
    (k : Bytes) (es : Entries) → mem k (keys es) ≡ false → find_entry k es ≡ none
unfolding find_entry
find_entry_missing k [] h = refl
find_entry_missing k ((q, e) ∷ es) h =
    let (other, rest) = neither (bytes_eq q k) (mem k (keys es)) h in
    rw other (find_entry_missing k es rest)

find_entry_same :
    (x q : Bytes) (e : CacheEntry) (es : Entries)
    → mem x (keys es) ≡ false
    → find_entry q es
      ≡ (if bytes_eq x q then none else if bytes_eq x q then some e else find_entry q es)
find_entry_same x q e es h = elim (Bool-cases (bytes_eq x q)) [
  | inl c ↦ rw c (
      find_entry_missing q es
        (subst (λ (y : Bytes). mem y (keys es) ≡ false) (bytes_eq_sound x q c) h))
  | inr c ↦ rw c refl
]

-- The keys that are left are found as before, and the removed one is not.
pub find_entry-remove_entry :
    (k q : Bytes) (es : Entries)
    → Distinct (keys es)
    → find_entry q (remove_entry k es) ≡ (if bytes_eq k q then none else find_entry q es)
unfolding find_entry remove_entry
find_entry-remove_entry k q [] h =
    if_elim (λ r. none ≡ r) (bytes_eq k q) none none (λ _. refl) (λ _. refl)
find_entry-remove_entry k q ((x, e) ∷ es) h = elim (Bool-cases (bytes_eq x k)) [
  | inl b ↦ rw b (
      subst
        (λ (y : Bytes).
          find_entry q es
          ≡ (if bytes_eq y q then none else if bytes_eq x q then some e else find_entry q es))
        (bytes_eq_sound x k b) (find_entry_same x q e es h.0))
  | inr b ↦
      rw (b, find_entry-remove_entry k q es h.1)
        (elim (Bool-cases (bytes_eq x q)) [
          | inl a ↦ rw (a, unlike x k q b a) refl
          | inr a ↦ rw a refl
        ])
]

pub mem-last_key : (k : Bytes) (ks : List Bytes) → mem (last_key (k ∷ ks)) (k ∷ ks) ≡ true
unfolding last_key
mem-last_key k [] = rw (bytes_eq_refl k) refl
mem-last_key k (q ∷ ks) = ||_right (bytes_eq k (last_key (q ∷ ks))) _ (mem-last_key q ks)
