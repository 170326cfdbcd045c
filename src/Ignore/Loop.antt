-- ===== src/Ignore/Loop.antt =====
-- The loop of `glob_segment` computes the meaning of the pattern, on texts without a '*'.
use wsldrive.Prelude.{
  ℕ, zero, suc, ◌+◌, ◌*◌, ◌≤◌, ◌<◌, ◌≡◌, refl, sym, ap, ◌∙◌, Bool, true, false, ◌&&◌, ◌||◌, [], ◌∷◌,
  ◌++◌, append_assoc, Bytes, All, All-append, length, length-append, arith, ◌==◌, ==_iff, if_elim,
  Option, none, some,
}
use mathlib.Core.Path.{subst}
use wsldrive.Ignore.{Cursor, one_matches, backtrack, step, glob_loop}
use wsldrive.Ignore.Glob.{
  any_suffix, one_byte, matches, IsPlain, matches-plain, matches-only_stars, matches-star, retry,
  retry_at_end, retry_covered, rounds, mul_suc, mul_le,
}

-- The loop at a cursor with a star: the pattern behind the star begins with `lit`, which has taken
-- the bytes `x` since `mark`.
pub record IsAt (after mark pat text lit x : Bytes) : Type 0 where
  pub pattern : after ≡ lit ++ pat
  pub place : mark ≡ x ++ text
  pub same : length lit ≡ length x
  pub plain : All IsPlain lit
  pub no_star : All IsPlain mark

no_star_tail : (x text : Bytes) → All IsPlain (x ++ text) → All IsPlain text
no_star_tail [] text h = h
no_star_tail (c ∷ x) text h = no_star_tail x text h.1

or_false : (a : Bool) → (a || false) ≡ a
or_false true = refl
or_false false = refl

absorb : (a b : Bool) → (b ≡ true → a ≡ true) → a ≡ (a || b)
absorb true b f = refl
absorb false true f = f refl
absorb false false f = refl

pub matched-IsPlain : (p t : ℕ) → IsPlain t → one_matches p t ≡ true → IsPlain p
unfolding one_matches
matched-IsPlain p t plain h e = absurd (ground arith)

pub any_or_retry :
    (after mark : Bytes)
    → (matches after mark || retry after mark) ≡ any_suffix (matches after) mark
unfolding retry any_suffix
any_or_retry after [] = or_false (matches after [])
any_or_retry after (m ∷ mark) = refl

-- What `glob_loop` does with the cursor of a round.
abbrev pub resume : ℕ → Option Cursor → Bool
resume fuel o = elim o [ none ↦ false | some next ↦ glob_loop fuel next.pat next.text next.star ]

-- The claim on the loop at a fresh star.
abbrev Restarts : ℕ → Bytes → Bytes → Type 0
Restarts fuel after mark =
    glob_loop fuel after mark (some (after, mark)) ≡ (matches after mark || retry after mark)

mark_length : (mark x text : Bytes) → mark ≡ x ++ text → length mark ≡ length x + length text
mark_length mark x text e = ap length e ∙ length-append x text

resume-backtrack :
    (fuel : ℕ) (after mark : Bytes)
    → 1 ≤ length mark
    → All IsPlain mark
    → ((rest : Bytes)
        → suc (length rest) ≡ length mark
        → All IsPlain rest
        → Restarts fuel after rest)
    → resume fuel (backtrack (some (after, mark))) ≡ retry after mark
unfolding backtrack retry
resume-backtrack fuel after [] some_left plain ih = absurd (omega arith)
resume-backtrack fuel after (m ∷ mark) some_left plain ih =
    ih mark refl plain.1 ∙ unfold retry in any_or_retry after mark

IsAt-next :
    (after mark pat text lit x : Bytes) (p t : ℕ)
    → IsPlain p
    → IsAt after mark (p ∷ pat) (t ∷ text) lit x
    → IsAt after mark pat text (lit ++ p ∷ []) (x ++ t ∷ [])
IsAt-next after mark pat text lit x p t plain at = record {
  pattern = at.pattern ∙ sym (append_assoc lit (p ∷ []) pat);
  place = at.place ∙ sym (append_assoc x (t ∷ []) text);
  same = omega (arith, at.same, length-append lit (p ∷ []), length-append x (t ∷ []));
  plain = All-append IsPlain lit (p ∷ []) at.plain (plain, tt);
  no_star = at.no_star;
}

pub IsAt-start : (after mark : Bytes) → All IsPlain mark → IsAt after mark after mark [] []
IsAt-start after mark h = record {
  pattern = refl;
  place = refl;
  same = refl;
  plain = tt;
  no_star = h;
}

pub matches_one :
    (p t : ℕ) (pat text : Bytes)
    → IsPlain p
    → matches (p ∷ pat) (t ∷ text) ≡ (one_matches p t && matches pat text)
matches_one p t pat text h = matches-plain p pat (t ∷ text) h ∙ unfold one_byte in refl

pub matches_nothing : (t : ℕ) (text : Bytes) → matches [] (t ∷ text) ≡ false
unfolding matches
matches_nothing t text = refl

-- The claim on the loop with a star.
abbrev pub Loops : ℕ → ℕ → Type 0
Loops bound fuel =
    (after mark pat text lit x : Bytes)
    → IsAt after mark pat text lit x
    → length after ≤ bound
    → rounds bound (length mark) pat < fuel
    → glob_loop fuel pat text (some (after, mark)) ≡ (matches pat text || retry after mark)

fuel_back :
    (bound fuel r m a p : ℕ)
    → suc r ≡ m
    → a ≤ bound
    → m * suc bound + p < suc fuel
    → r * suc bound + a < fuel
fuel_back bound fuel r m a p e small enough =
    omega (arith, ap (λ n. n * suc bound) e, mul_suc r (suc bound))

-- Going back to the last star, from any mismatch.
mismatch :
    (bound fuel : ℕ) (after mark pat text lit x : Bytes) (t : ℕ)
    → Loops bound fuel
    → IsAt after mark pat (t ∷ text) lit x
    → length after ≤ bound
    → rounds bound (length mark) pat < suc fuel
    → matches pat (t ∷ text) ≡ false
    → resume fuel (backtrack (some (after, mark))) ≡ (matches pat (t ∷ text) || retry after mark)
mismatch bound fuel after mark pat text lit x t ih at small enough differs = rw differs (
    resume-backtrack fuel after mark (omega (arith, mark_length mark x (t ∷ text) at.place))
      at.no_star
      (λ rest e plain. ih after rest after rest [] [] (IsAt-start after rest plain) small (
        fuel_back bound fuel (length rest) (length mark) (length after) (length pat) e small
          enough)))

first_byte :
    (bound fuel : ℕ) (after mark pat text lit x : Bytes) (p t : ℕ)
    → Loops bound fuel
    → IsAt after mark (p ∷ pat) (t ∷ text) lit x
    → length after ≤ bound
    → rounds bound (length mark) (p ∷ pat) < suc fuel
    → IsPlain p
    → one_matches p t ≡ true
    → glob_loop fuel pat text (some (after, mark))
      ≡ (matches (p ∷ pat) (t ∷ text) || retry after mark)
first_byte bound fuel after mark pat text lit x p t ih at small enough plain e =
    rw (matches_one p t pat text plain, e)
      (ih after mark pat text (lit ++ p ∷ []) (x ++ t ∷ [])
        (IsAt-next after mark pat text lit x p t plain at) small (omega arith))

new_star :
    (bound fuel : ℕ) (after mark pat text lit x : Bytes) (p t : ℕ)
    → Loops bound fuel
    → IsAt after mark (p ∷ pat) (t ∷ text) lit x
    → length after ≤ bound
    → rounds bound (length mark) (p ∷ pat) < suc fuel
    → p ≡ b'*'
    → glob_loop fuel pat (t ∷ text) (some (pat, t ∷ text))
      ≡ (matches (p ∷ pat) (t ∷ text) || retry after mark)
new_star bound fuel after mark pat text lit x p t ih at small enough e =
    ih pat (t ∷ text) pat (t ∷ text) [] []
      (IsAt-start pat (t ∷ text)
        (no_star_tail x (t ∷ text) (subst (All IsPlain) at.place at.no_star)))
      (omega (arith, ap length at.pattern, length-append lit (p ∷ pat)))
      (omega (
        arith,
        mul_le (length (t ∷ text)) (length mark) (suc bound)
            (omega (arith, mark_length mark x (t ∷ text) at.place)),
      ))
    ∙ any_or_retry pat (t ∷ text)
    ∙ absorb (any_suffix (matches pat) (t ∷ text)) (retry after mark) covered
    ∙ ap (λ b. b || retry after mark)
        (sym (ap (λ q. matches (q ∷ pat) (t ∷ text)) e ∙ matches-star pat (t ∷ text)))
  where
    covered : retry after mark ≡ true → any_suffix (matches pat) (t ∷ text) ≡ true
    covered h =
        retry_covered lit x (p ∷ pat) (t ∷ text) at.same at.plain pat (ap (λ q. q ∷ pat) e) (
          subst (λ m. retry (lit ++ p ∷ pat) m ≡ true) at.place
            (subst (λ a. retry a mark ≡ true) at.pattern h))

pub loop_some : (bound fuel : ℕ) → Loops bound fuel
unfolding glob_loop step
loop_some bound zero after mark pat text lit x at small enough = absurd (omega arith)
loop_some bound (suc fuel) after mark pat [] lit x at small enough =
    let no_more : retry after mark ≡ false =
      rw (at.pattern, at.place) (retry_at_end lit x pat [] at.same at.plain) in
    rw (no_more, or_false (matches pat [])) (sym (matches-only_stars pat))
loop_some bound (suc fuel) after mark [] (t ∷ text) lit x at small enough =
    mismatch bound fuel after mark [] text lit x t (loop_some bound fuel) at small enough
      (matches_nothing t text)
loop_some bound (suc fuel) after mark (p ∷ pat) (t ∷ text) lit x at small enough =
    let ih : Loops bound fuel = loop_some bound fuel in
    if_elim (λ c. resume fuel c ≡ (matches (p ∷ pat) (t ∷ text) || retry after mark))
      (one_matches p t) _ _
      (λ e.
        first_byte bound fuel after mark pat text lit x p t ih at small enough
          (matched-IsPlain p t
            (no_star_tail x (t ∷ text) (subst (All IsPlain) at.place at.no_star)).0 e)
          e)
      (λ e.
        if_elim (λ c. resume fuel c ≡ (matches (p ∷ pat) (t ∷ text) || retry after mark))
          (p == b'*') _ _
          (λ star.
            new_star bound fuel after mark pat text lit x p t ih at small enough
              ((==_iff p b'*').0 star))
          (λ other.
            mismatch bound fuel after mark (p ∷ pat) text lit x t ih at small enough
              (matches_one p t pat text (ground arith) ∙ ap (λ b. b && matches pat text) e)))
