-- ===== src/Paths/Normal.antt =====
-- The normal form of a path: what `normalize_path` returns, and that it is stable.
use wsldrive.Prelude.{
  ℕ, zero, suc, ◌≤◌, ◌≡◌, refl, sym, ap, ◌∙◌, false, List, [], ◌∷◌, ◌++◌, append-nil, append_assoc,
  Bytes, length, length-append, arith, All, lt→ltb, le→ltb, Bool-cases, inl, inr,
}
use wsldrive.Paths.{
  is_path_separator, skip_separators, components_loop, components, is_skipped, push_component,
  push_components, normalize_path_append, normalize_path,
}
use wsldrive.Paths.Components.{
  NoSeparator, components-NoSeparator, real, IsReal, real-IsReal, real_id, join, component-append,
  after_component-append, component_whole, after_component_whole,
}

skip_head : (x : ℕ) (s : Bytes) → is_path_separator x ≡ false → skip_separators (x ∷ s) ≡ x ∷ s
unfolding skip_separators
skip_head x s h = rw h

-- One round on a real component that ends the path, and on one that '/' follows.
round_last :
    (f x : ℕ) (c : Bytes)
    → NoSeparator (x ∷ c)
    → components_loop (suc f) (x ∷ c) ≡ (x ∷ c) ∷ components_loop f []
unfolding components_loop
round_last f x c h =
    rw (skip_head x c h.0, component_whole (x ∷ c) h, after_component_whole (x ∷ c) h)

round_inner :
    (f x : ℕ) (c s : Bytes)
    → NoSeparator (x ∷ c)
    → components_loop (suc f) ((x ∷ c) ++ (b'/' ∷ s)) ≡ (x ∷ c) ∷ components_loop f (b'/' ∷ s)
unfolding components_loop
round_inner f x c s h = rw (
  skip_head x (c ++ (b'/' ∷ s)) h.0,
  component-append (x ∷ c) s h,
  after_component-append (x ∷ c) s h,
)

-- A separator in front of a byte is passed over.
slash_round :
    (f x : ℕ) (s : Bytes) → components_loop (suc f) (b'/' ∷ x ∷ s) ≡ components_loop (suc f) (x ∷ s)
unfolding components_loop skip_separators is_path_separator
slash_round f x s = refl

head_real :
    (c : Bytes) (cs : List Bytes) → IsReal c → (x : ℕ) × (s : Bytes) × (join (c ∷ cs) ≡ x ∷ s)
unfolding is_skipped join
head_real [] cs h = absurd (cc)
head_real (x ∷ c) [] h = (x, c, refl)
head_real (x ∷ c) (d ∷ cs) h = (x, c ++ (b'/' ∷ join (d ∷ cs)), refl)

slash_join :
    (f : ℕ) (d : Bytes) (cs : List Bytes)
    → IsReal d
    → components_loop (suc f) (b'/' ∷ join (d ∷ cs)) ≡ components_loop (suc f) (join (d ∷ cs))
slash_join f d cs h = let (x, s, e) = head_real d cs h in rw e (slash_round f x s)

loop_nil : (f : ℕ) → components_loop f [] ≡ []
unfolding components_loop
loop_nil zero = refl
loop_nil (suc f) = refl

-- The loop goes over joined components one by one.
loop-join :
    (f : ℕ) (cs : List Bytes)
    → All IsReal cs
    → length (join cs) ≤ f
    → components_loop f (join cs) ≡ cs
unfolding join
loop-join f [] h hf = loop_nil f
loop-join f ([] ∷ cs) h hf = unfold is_skipped in absurd (cc)
loop-join zero ((x ∷ c) ∷ []) h hf = absurd (omega arith)
loop-join (suc f) ((x ∷ c) ∷ []) h hf = round_last f x c h.0.1 ∙ ap (◌∷◌ (x ∷ c)) (loop_nil f)
loop-join zero ((x ∷ c) ∷ d ∷ cs) h hf = absurd (omega arith)
loop-join (suc zero) ((x ∷ c) ∷ d ∷ cs) h hf =
    absurd (omega (arith, length-append c (b'/' ∷ join (d ∷ cs))))
loop-join (suc (suc f)) ((x ∷ c) ∷ d ∷ cs) h hf =
    round_inner (suc f) x c (join (d ∷ cs)) h.0.1
    ∙ ap (◌∷◌ (x ∷ c)) (
        slash_join f d cs h.1.0
        ∙ loop-join (suc f) (d ∷ cs) h.1 (omega (arith, length-append c (b'/' ∷ join (d ∷ cs)))))

components-join : (cs : List Bytes) → All IsReal cs → components (join cs) ≡ cs
unfolding components
components-join cs h = loop-join (length (join cs)) cs h (omega arith)

join_grow : (w c : Bytes) (r : List Bytes) → join ((w ++ (b'/' ∷ c)) ∷ r) ≡ join (w ∷ c ∷ r)
unfolding join
join_grow w c [] = refl
join_grow w c (d ∷ r) = append_assoc w (b'/' ∷ c) (b'/' ∷ join (d ∷ r))

grown : (base w c : Bytes) → ((base ++ w) ++ b'/' ∷ []) ++ c ≡ base ++ (w ++ (b'/' ∷ c))
grown base w c = append_assoc (base ++ w) (b'/' ∷ []) c ∙ append_assoc base w (b'/' ∷ c)

-- With `y ∷ w` appended to `base` so far, the rest of the loop goes on behind a '/'.
push_behind :
    (base : Bytes) (y : ℕ) (w : Bytes) (cs : List Bytes)
    → push_components (length base) (base ++ (y ∷ w)) cs ≡ base ++ join ((y ∷ w) ∷ real cs)
unfolding push_components push_component real
push_behind base y w [] = unfold join in refl
push_behind base y w (c ∷ cs) = elim (Bool-cases (is_skipped c)) [
  | inl e ↦ rw e (push_behind base y w cs)
  | inr e ↦
      rw
        (
          e,
          lt→ltb (length base) (length (base ++ (y ∷ w)))
              (omega (arith, length-append base (y ∷ w))),
          grown base (y ∷ w) c,
        )
        (push_behind base y (w ++ (b'/' ∷ c)) cs ∙ ap (◌++◌ base) (join_grow (y ∷ w) c (real cs)))
]

push_first :
    (base : Bytes) (cs : List Bytes)
    → push_components (length base) base cs ≡ base ++ join (real cs)
unfolding push_components push_component real
push_first base [] = unfold join in sym (append-nil base)
push_first base (c ∷ cs) = elim (Bool-cases (is_skipped c)) [
  | inl e ↦ rw e (push_first base cs)
  | inr e ↦ rw (e, le→ltb (length base) (length base) (omega arith)) (begin c e)
]
  where
    begin :
        (c : Bytes)
        → is_skipped c ≡ false
        → push_components (length base) (base ++ c) cs ≡ base ++ join (c ∷ real cs)
    begin [] e = unfold is_skipped in absurd (cc)
    begin (y ∷ w) e = push_behind base y w cs

pub normalize_path-join : (s : Bytes) → normalize_path s ≡ join (real (components s))
unfolding normalize_path normalize_path_append
normalize_path-join s = push_first [] (components s)

pub real-components-IsReal : (s : Bytes) → All IsReal (real (components s))
real-components-IsReal s = real-IsReal (components s) (components-NoSeparator s)

-- `normalize_path_append` keeps what the buffer holds and appends the normalised path to it.
pub normalize_path_append_lem :
    (s out : Bytes) → normalize_path_append s out ≡ out ++ normalize_path s
normalize_path_append_lem s out =
    unfold normalize_path_append in
    push_first out (components s) ∙ sym (ap (◌++◌ out) (normalize_path-join s))

-- The components of a normalised path are those of the path that are neither empty nor ".", in
-- their order and no others.
pub components-normalize_path : (s : Bytes) → components (normalize_path s) ≡ real (components s)
components-normalize_path s =
    ap components (normalize_path-join s)
    ∙ components-join (real (components s)) (real-components-IsReal s)

-- Normalising twice is normalising once.
pub normalize_path_idempotent : (s : Bytes) → normalize_path (normalize_path s) ≡ normalize_path s
normalize_path_idempotent s =
    normalize_path-join (normalize_path s)
    ∙ ap (λ cs. join (real cs)) (components-normalize_path s)
    ∙ ap join (real_id (real (components s)) (real-components-IsReal s))
    ∙ sym (normalize_path-join s)
