-- ===== src/Ignore/Glob.antt =====
-- `glob_segment` against the recursive meaning of a pattern.
use wsldrive.Prelude.{
  ℕ, zero, suc, ◌+◌, ◌*◌, ◌≤◌, ◌≡◌, ◌≢◌, refl, sym, ap, ◌∙◌, ◌⊎◌, inl, inr, ◌↔◌, Bool, true, false,
  ◌&&◌, ◌||◌, [], ◌∷◌, ◌++◌, Bytes, All, length, length-append, length-drop, drop-append, ||_right,
  null, drop, arith, ◌==◌, &&_iff, ||_iff, if◌then◌else◌, if_elim, Bool_ext,
}
use wsldrive.Ignore.{only_stars, one_matches}

-- Whether a test holds of some suffix.
unfoldable pub any_suffix : (Bytes → Bool) → Bytes → Bool
any_suffix f [] = f []
any_suffix f (t ∷ ts) = f (t ∷ ts) || any_suffix f ts

unfoldable pub one_byte : ℕ → (Bytes → Bool) → Bytes → Bool
one_byte p f [] = false
one_byte p f (t ∷ ts) = one_matches p t && f ts

-- What a pattern means: '*' stands for any run of bytes, '?' for one byte, any other for itself.
unfoldable pub matches : Bytes → Bytes → Bool
matches [] text = null text
matches (p ∷ pat) text =
    if p == b'*' then any_suffix (matches pat) text else one_byte p (matches pat) text

abbrev pub IsPlain : ℕ → Type 0
IsPlain c = c ≢ b'*'

any_suffix_iff :
    (f : Bytes → Bool) (s : Bytes) → (any_suffix f s ≡ true) ↔ ((j : ℕ) × (f (drop j s) ≡ true))
unfolding any_suffix
any_suffix_iff f [] = (λ h. (0, h), λ h. back h)
  where
    back : (j : ℕ) × (f (drop j []) ≡ true) → f [] ≡ true
    back (zero, h) = h
    back (suc j, h) = h
any_suffix_iff f (t ∷ ts) =
    let rest = any_suffix_iff f ts in
    (
      λ h. forth rest ((||_iff (f (t ∷ ts)) (any_suffix f ts)).0 h),
      λ h. (||_iff (f (t ∷ ts)) (any_suffix f ts)).1 (back rest h),
    )
  where
    forth :
        ((any_suffix f ts ≡ true) ↔ ((j : ℕ) × (f (drop j ts) ≡ true)))
        → (f (t ∷ ts) ≡ true) ⊎ (any_suffix f ts ≡ true)
        → (j : ℕ) × (f (drop j (t ∷ ts)) ≡ true)
    forth rest (inl h) = (0, h)
    forth rest (inr h) = let found = rest.0 h in (suc found.0, found.1)

    back :
        ((any_suffix f ts ≡ true) ↔ ((j : ℕ) × (f (drop j ts) ≡ true)))
        → (j : ℕ) × (f (drop j (t ∷ ts)) ≡ true)
        → (f (t ∷ ts) ≡ true) ⊎ (any_suffix f ts ≡ true)
    back rest (zero, h) = inl h
    back rest (suc j, h) = inr (rest.1 (j, h))

drop-suc : (i : ℕ) (s : Bytes) → drop (suc i) s ≡ drop i (drop 1 s)
drop-suc zero [] = refl
drop-suc (suc i) [] = refl
drop-suc i (t ∷ s) = refl

drop_one : (j : ℕ) (s : Bytes) → drop 1 (drop j s) ≡ drop j (drop 1 s)
drop_one zero s = refl
drop_one (suc j) [] = refl
drop_one (suc j) (t ∷ s) = drop_one j s ∙ sym (drop-suc j s)

drop_comm : (i j : ℕ) (s : Bytes) → drop i (drop j s) ≡ drop j (drop i s)
drop_comm zero j s = refl
drop_comm (suc i) j s =
    drop-suc i (drop j s)
    ∙ ap (drop i) (drop_one j s)
    ∙ drop_comm i j (drop 1 s)
    ∙ ap (drop j) (sym (drop-suc i s))

plain_byte : (p : ℕ) → IsPlain p → (p == b'*') ≡ false
plain_byte p h = ground arith

pub matches-plain :
    (p : ℕ) (pat text : Bytes) → IsPlain p → matches (p ∷ pat) text ≡ one_byte p (matches pat) text
unfolding matches
matches-plain p pat text h = rw (plain_byte p h) refl

-- A pattern that begins with `lit`, which has no '*', takes as many bytes first.
matches_lit :
    (lit pat u : Bytes)
    → All IsPlain lit
    → matches (lit ++ pat) u ≡ true
    → (length lit ≤ length u) × (matches pat (drop (length lit) u) ≡ true)
unfolding matches one_byte
matches_lit [] pat u plain h = (omega arith, h)
matches_lit (p ∷ lit) pat [] plain h =
    absurd (let e = sym (matches-plain p (lit ++ pat) [] plain.0) ∙ h in cc)
matches_lit (p ∷ lit) pat (t ∷ u) plain h =
    let e : (one_matches p t && matches (lit ++ pat) u) ≡ true =
      sym (matches-plain p (lit ++ pat) (t ∷ u) plain.0) ∙ h in
    let rest : (length lit ≤ length u) × (matches pat (drop (length lit) u) ≡ true) =
      matches_lit lit pat u plain.1 ((&&_iff (one_matches p t) (matches (lit ++ pat) u)).0 e).1 in
    (omega (arith, rest.0), rest.1)

pub matches-only_stars : (pat : Bytes) → matches pat [] ≡ only_stars pat
unfolding matches only_stars any_suffix one_byte
matches-only_stars [] = refl
matches-only_stars (p ∷ pat) =
    if_elim (λ b. b ≡ ((p == b'*') && only_stars pat)) (p == b'*') _ _
      (λ e. rw e (matches-only_stars pat)) (λ e. rw e refl)

-- What the last '*' leaves to try: its run ends later than at `mark`.
unfoldable pub retry : Bytes → Bytes → Bool
retry after [] = false
retry after (m ∷ mark) = any_suffix (matches after) mark

retry_found :
    (after mark : Bytes)
    → retry after mark ≡ true
    → (1 ≤ length mark) × ((j : ℕ) × (matches after (drop (suc j) mark) ≡ true))
unfolding retry
retry_found after [] h = absurd (cc)
retry_found after (m ∷ mark) h = (omega arith, (any_suffix_iff (matches after) mark).0 h)

any_suffix-drop :
    (f : Bytes → Bool) (n : ℕ) (s : Bytes) → any_suffix f (drop n s) ≡ true → any_suffix f s ≡ true
unfolding any_suffix
any_suffix-drop f zero s h = h
any_suffix-drop f (suc n) [] h = h
any_suffix-drop f (suc n) (t ∷ s) h =
    ||_right (f (t ∷ s)) (any_suffix f s) (any_suffix-drop f n s h)

pub matches-star : (ps text : Bytes) → matches (b'*' ∷ ps) text ≡ any_suffix (matches ps) text
unfolding matches
matches-star ps text = refl

module _ (lit x pat text : Bytes) (same : length lit ≡ length x) (plain : All IsPlain lit) where
  -- At the end of the text there is nothing more to try.
  pub retry_at_end : retry (lit ++ pat) (x ++ []) ≡ false
  retry_at_end = Bool_ext _ _ (λ h. absurd (gone h)) (λ h. absurd (cc))
    where
      gone : retry (lit ++ pat) (x ++ []) ≡ true → ⊥
      gone h =
          let found = retry_found (lit ++ pat) (x ++ []) h in
          let u = drop (suc found.1.0) (x ++ []) in
          omega (
            arith,
            found.0,
            (matches_lit lit pat u plain found.1.1).0,
            length-drop (suc found.1.0) (x ++ []),
            length-append x [],
          )

  -- A later '*' finds all that an earlier one could.
  pub retry_covered :
      (ps : Bytes)
      → pat ≡ b'*' ∷ ps
      → retry (lit ++ pat) (x ++ text) ≡ true
      → any_suffix (matches ps) text ≡ true
  retry_covered ps e h =
      let found = retry_found (lit ++ pat) (x ++ text) h in
      let j = suc found.1.0 in
      let later : matches pat (drop (length lit) (drop j (x ++ text))) ≡ true =
        (matches_lit lit pat (drop j (x ++ text)) plain found.1.1).1 in
      let place : drop (length lit) (drop j (x ++ text)) ≡ drop j text =
        drop_comm (length lit) j (x ++ text)
        ∙ ap (λ n. drop j (drop n (x ++ text))) same
        ∙ ap (drop j) (drop-append x text) in
      any_suffix-drop (matches ps) j text (
        sym (matches-star ps (drop j text))
        ∙ ap (λ q. matches q (drop j text)) (sym e)
        ∙ sym (ap (matches pat) place)
        ∙ later)

-- The measure of a loop whose runs end at `mark` or before, for patterns of at most `p` bytes.
abbrev pub rounds : ℕ → ℕ → Bytes → ℕ
rounds p m pat = m * suc p + length pat

pub mul_suc : (m q : ℕ) → suc m * q ≡ m * q + q
mul_suc m q = grind arith

pub mul_le : (a b q : ℕ) → a ≤ b → a * q ≤ b * q
mul_le a b q h = grind arith
