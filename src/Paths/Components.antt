-- ===== src/Paths/Components.antt =====
-- The loop over the components of a path: what it yields, and that its fuel is enough.
use wsldrive.Prelude.{
  ℕ, zero, suc, ◌≤◌, ◌≡◌, refl, ap, false, List, [], ◌∷◌, ◌++◌, Bytes, length, arith, All,
  Bool-cases, inl, inr, if◌then◌else◌,
}
use wsldrive.Paths.{
  is_path_separator, skip_separators, component, after_component, components_loop, components,
  is_skipped,
}

abbrev pub NoSeparator : Bytes → Type 0
NoSeparator = All (λ c. is_path_separator c ≡ false)

pub component-NoSeparator : (s : Bytes) → NoSeparator (component s)
unfolding component
component-NoSeparator [] = tt
component-NoSeparator (c ∷ s) = elim (Bool-cases (is_path_separator c)) [
  | inl e ↦ rw e tt
  | inr e ↦ rw e (e, component-NoSeparator s)
]

length-skip_separators : (s : Bytes) → length (skip_separators s) ≤ length s
unfolding skip_separators
length-skip_separators [] = omega arith
length-skip_separators (c ∷ s) = ground (arith, length-skip_separators s)

length-after_component : (s : Bytes) → length (after_component s) ≤ length s
unfolding after_component
length-after_component [] = omega arith
length-after_component (c ∷ s) = ground (arith, length-after_component s)

-- A round of the loop takes at least one byte.
round_shrinks : (c : ℕ) (s : Bytes) → length (after_component (skip_separators (c ∷ s))) ≤ length s
unfolding skip_separators
round_shrinks c s = elim (Bool-cases (is_path_separator c)) [
  | inl e ↦
      rw e (omega (arith, length-after_component (skip_separators s), length-skip_separators s))
  | inr e ↦ rw e (unfold after_component in rw e (length-after_component s))
]

-- Any fuel that covers the input gives the same components.
pub components_loop_fuel :
    (f g : ℕ) (s : Bytes) → length s ≤ f → length s ≤ g → components_loop f s ≡ components_loop g s
unfolding components_loop
components_loop_fuel f g [] hf hg = refl
components_loop_fuel zero g (c ∷ s) hf hg = absurd (omega arith)
components_loop_fuel (suc f) zero (c ∷ s) hf hg = absurd (omega arith)
components_loop_fuel (suc f) (suc g) (c ∷ s) hf hg =
    ap (◌∷◌ (component (skip_separators (c ∷ s)))) (
      components_loop_fuel f g (after_component (skip_separators (c ∷ s)))
        (omega (arith, round_shrinks c s)) (omega (arith, round_shrinks c s)))

components_loop-NoSeparator : (f : ℕ) (s : Bytes) → All NoSeparator (components_loop f s)
unfolding components_loop
components_loop-NoSeparator zero [] = tt
components_loop-NoSeparator (suc f) [] = tt
components_loop-NoSeparator zero (c ∷ s) = tt
components_loop-NoSeparator (suc f) (c ∷ s) = (
  component-NoSeparator (skip_separators (c ∷ s)),
  components_loop-NoSeparator f (after_component (skip_separators (c ∷ s))),
)

pub components-NoSeparator : (s : Bytes) → All NoSeparator (components s)
unfolding components
components-NoSeparator s = components_loop-NoSeparator (length s) s

-- The components that a caller of the loop acts on.
unfoldable pub real : List Bytes → List Bytes
real [] = []
real (c ∷ cs) = if is_skipped c then real cs else c ∷ real cs

-- Neither empty nor ".", and free of separators.
abbrev pub IsReal : Bytes → Type 0
IsReal c = (is_skipped c ≡ false) × NoSeparator c

pub real-IsReal : (cs : List Bytes) → All NoSeparator cs → All IsReal (real cs)
unfolding real
real-IsReal [] h = tt
real-IsReal (c ∷ cs) h = elim (Bool-cases (is_skipped c)) [
  | inl e ↦ rw e (real-IsReal cs h.1)
  | inr e ↦ rw e ((e, h.0), real-IsReal cs h.1)
]

pub real_id : (cs : List Bytes) → All IsReal cs → real cs ≡ cs
unfolding real
real_id [] h = refl
real_id (c ∷ cs) h = rw (h.0.0, real_id cs h.1)

-- Components put together with '/'.
unfoldable pub join : List Bytes → Bytes
join [] = []
join (c ∷ []) = c
join (c ∷ d ∷ cs) = c ++ (b'/' ∷ join (d ∷ cs))

pub component-append : (c s : Bytes) → NoSeparator c → component (c ++ (b'/' ∷ s)) ≡ c
unfolding component is_path_separator
component-append [] s h = refl
component-append (x ∷ c) s h = rw h.0 (ap (◌∷◌ x) (component-append c s h.1))

pub after_component-append :
    (c s : Bytes) → NoSeparator c → after_component (c ++ (b'/' ∷ s)) ≡ b'/' ∷ s
unfolding after_component is_path_separator
after_component-append [] s h = refl
after_component-append (x ∷ c) s h = rw h.0 (after_component-append c s h.1)

pub component_whole : (c : Bytes) → NoSeparator c → component c ≡ c
unfolding component
component_whole [] h = refl
component_whole (x ∷ c) h = rw h.0 (ap (◌∷◌ x) (component_whole c h.1))

pub after_component_whole : (c : Bytes) → NoSeparator c → after_component c ≡ []
unfolding after_component
after_component_whole [] h = refl
after_component_whole (x ∷ c) h = rw h.0 (after_component_whole c h.1)
