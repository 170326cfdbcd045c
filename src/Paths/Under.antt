-- ===== src/Paths/Under.antt =====
-- `path_is_under` decides the relation that it documents, and `split_parent` inverts a join.
use wsldrive.Prelude.{
  ℕ, suc, ◌≡◌, refl, sym, ap, ap₂, ◌∙◌, ◌≢◌, ◌⊎◌, inl, inr, ◌↔◌, true, [], ◌∷◌, ◌++◌, Bytes,
  bytes_eq_iff, bytes_eq_refl, length, length-append, take, drop, take-append, drop-append,
  take-append-drop, take_all, arith, le→ltb, ◌==◌, Option, none, some, Option-cases, Bool-cases,
  if◌then◌else◌,
}
use wsldrive.Paths.{path_is_under, starts_with_slash, rsplit, split_parent}

-- `child` is `parent`, or lies below it; the empty parent is the root.
abbrev pub Under : Bytes → Bytes → Type 0
Under child parent =
    (parent ≡ []) ⊎ (child ≡ parent) ⊎ ((rest : Bytes) × (child ≡ parent ++ (b'/' ∷ rest)))

slash_head : (s : Bytes) → starts_with_slash s ≡ true → (rest : Bytes) × (s ≡ b'/' ∷ rest)
unfolding starts_with_slash
slash_head [] h = cc
slash_head (c ∷ s) h = (s, ground arith)

under_tests :
    (child : Bytes) (p : ℕ) (ps : Bytes)
    → path_is_under child (p ∷ ps) ≡ true
    → (take (length (p ∷ ps)) child ≡ p ∷ ps)
      × ((length child ≡ length (p ∷ ps))
          ⊎ (starts_with_slash (drop (length (p ∷ ps)) child) ≡ true))
unfolding path_is_under
under_tests child p ps h = ground (arith, bytes_eq_iff (take (suc (length ps)) child) (p ∷ ps))

Under-sound : (child parent : Bytes) → path_is_under child parent ≡ true → Under child parent
Under-sound child [] h = inl refl
Under-sound child (p ∷ ps) h = by_tests (under_tests child p ps h)
  where
    by_tests :
        (take (length (p ∷ ps)) child ≡ p ∷ ps)
          × ((length child ≡ length (p ∷ ps))
              ⊎ (starts_with_slash (drop (length (p ∷ ps)) child) ≡ true))
        → Under child (p ∷ ps)
    by_tests (same, inl n) = inr (inl (sym (take_all (length (p ∷ ps)) child (omega arith)) ∙ same))
    by_tests (same, inr slash) =
        let (rest, e) = slash_head (drop (length (p ∷ ps)) child) slash in
        inr (inr (rest, sym (take-append-drop (length (p ∷ ps)) child) ∙ ap₂ ◌++◌ same e))

below_true : (p : ℕ) (ps rest : Bytes) → path_is_under ((p ∷ ps) ++ (b'/' ∷ rest)) (p ∷ ps) ≡ true
unfolding path_is_under starts_with_slash
below_true p ps rest =
    let longer = length-append (p ∷ ps) (b'/' ∷ rest) in
    rw
      (
        le→ltb (length ((p ∷ ps) ++ (b'/' ∷ rest))) (length (p ∷ ps)) (omega (arith, longer)),
        take-append (p ∷ ps) (b'/' ∷ rest),
        bytes_eq_refl (p ∷ ps),
        drop-append (p ∷ ps) (b'/' ∷ rest),
      )
      (ground arith)

self_true : (p : ℕ) (ps : Bytes) → path_is_under (p ∷ ps) (p ∷ ps) ≡ true
unfolding path_is_under
self_true p ps =
    rw (take_all (length (p ∷ ps)) (p ∷ ps) (omega arith), bytes_eq_refl (p ∷ ps)) (ground arith)

-- `path_is_under` holds exactly for the parent itself and for what lies below it, and for every
-- path where the parent is empty, the root.
pub path_is_under_iff :
    (child parent : Bytes) → (path_is_under child parent ≡ true) ↔ Under child parent
path_is_under_iff child parent = (Under-sound child parent, complete parent)
  where
    complete : (parent : Bytes) → Under child parent → path_is_under child parent ≡ true
    complete [] h = unfold path_is_under in refl
    complete (p ∷ ps) (inl e) = cc
    complete (p ∷ ps) (inr (inl e)) = rw e (self_true p ps)
    complete (p ∷ ps) (inr (inr (rest, e))) = rw e (below_true p ps rest)

-- The part behind the last '/' has none.
abbrev pub NoSlash : Bytes → Type 0
NoSlash [] = Unit {0}
NoSlash (c ∷ s) = (c ≢ b'/') × NoSlash s

abbrev Splits : Bytes → Option (Bytes × Bytes) → Type 0
Splits path none = NoSlash path
Splits path (some (front, back)) = (path ≡ front ++ (b'/' ∷ back)) × NoSlash back

rsplit-Splits : (path : Bytes) → Splits path (rsplit path)
unfolding rsplit
rsplit-Splits [] = tt
rsplit-Splits (c ∷ s) = extend (rsplit s) (rsplit-Splits s)
  where
    extend :
        (o : Option (Bytes × Bytes))
        → Splits s o
        → Splits (c ∷ s) (elim o [
          | some (front, back) ↦ some (c ∷ front, back)
          | none ↦ if c == b'/' then some ([], s) else none
        ])
    extend (some (front, back)) (e, h) = (ap (◌∷◌ c) e, h)
    extend none h = elim (Bool-cases (c == b'/')) [
      | inl slash ↦ rw slash (ground arith, h)
      | inr other ↦ rw other (ground arith, h)
    ]

-- `split_parent` cuts at the last '/': the leaf holds none, and parent, '/' and leaf put together
-- are the path; without a '/' the parent is empty and the leaf is the path.
pub split_parent_lem :
    (path : Bytes)
    → NoSlash (split_parent path).1
      × ((NoSlash path × (split_parent path ≡ ([], path)))
          ⊎ (path ≡ (split_parent path).0 ++ (b'/' ∷ (split_parent path).1)))
unfolding split_parent
split_parent_lem path = elim (Option-cases (rsplit path)) [
  | inl e ↦ rw (e, split_parent) (whole e, inl (whole e, refl))
  | inr ((front, back), e) ↦ rw (e, split_parent) ((parts e).1, inr (parts e).0)
]
  where
    whole : rsplit path ≡ none → NoSlash path
    whole e = rw e at (rsplit-Splits path)

    parts :
        {front back : Bytes}
        → rsplit path ≡ some (front, back)
        → (path ≡ front ++ (b'/' ∷ back)) × NoSlash back
    parts e = rw e at (rsplit-Splits path)

rsplit-NoSlash : (s : Bytes) → NoSlash s → rsplit s ≡ none
unfolding rsplit
rsplit-NoSlash [] h = refl
rsplit-NoSlash (c ∷ s) h = rw (rsplit-NoSlash s h.1, rsplit) (ground arith)

rsplit-join :
    (front back : Bytes) → NoSlash back → rsplit (front ++ (b'/' ∷ back)) ≡ some (front, back)
unfolding rsplit
rsplit-join [] back h = rw (rsplit-NoSlash back h, rsplit)
rsplit-join (c ∷ front) back h = rw (rsplit-join front back h, rsplit)

-- A path joined from a parent and a leaf is split into them again.
pub split_parent-join :
    (parent leaf : Bytes) → NoSlash leaf → split_parent (parent ++ (b'/' ∷ leaf)) ≡ (parent, leaf)
unfolding split_parent
split_parent-join parent leaf h = rw (rsplit-join parent leaf h, split_parent)
