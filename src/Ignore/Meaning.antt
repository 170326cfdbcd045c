-- ===== src/Ignore/Meaning.antt =====
-- `glob_segment`: what it decides, and where it does not.
use wsldrive.Prelude.{
  ℕ, zero, suc, ◌+◌, ◌*◌, ◌≤◌, ◌<◌, ◌≡◌, refl, sym, ap, ◌∙◌, true, false, ◌&&◌, [], ◌∷◌, Bytes, All,
  length, arith, ◌==◌, ==_iff, if_elim, none, some,
}
use wsldrive.Ignore.{one_matches, backtrack, step, glob_loop, glob_fuel, glob_segment}
use wsldrive.Ignore.Glob.{
  any_suffix, matches, IsPlain, matches-only_stars, matches-star, mul_suc, rounds,
}
use wsldrive.Ignore.Loop.{
  resume, loop_some, matches_one, matched-IsPlain, matches_nothing, any_or_retry, IsAt-start,
}

first_star :
    (bound fuel : ℕ) (pat text : Bytes) (p t : ℕ)
    → All IsPlain (t ∷ text)
    → length (p ∷ pat) ≤ bound
    → rounds bound (suc (length (t ∷ text))) (p ∷ pat) < suc fuel
    → p ≡ b'*'
    → glob_loop fuel pat (t ∷ text) (some (pat, t ∷ text)) ≡ matches (p ∷ pat) (t ∷ text)
first_star bound fuel pat text p t plain small enough e =
    loop_some bound fuel pat (t ∷ text) pat (t ∷ text) [] [] (IsAt-start pat (t ∷ text) plain)
      (omega arith) (omega (arith, mul_suc (length (t ∷ text)) (suc bound)))
    ∙ any_or_retry pat (t ∷ text)
    ∙ sym (ap (λ q. matches (q ∷ pat) (t ∷ text)) e ∙ matches-star pat (t ∷ text))

loop_none :
    (bound fuel : ℕ) (pat text : Bytes)
    → All IsPlain text
    → length pat ≤ bound
    → rounds bound (suc (length text)) pat < fuel
    → glob_loop fuel pat text none ≡ matches pat text
unfolding glob_loop step backtrack
loop_none bound zero pat text plain small enough = absurd (omega arith)
loop_none bound (suc fuel) pat [] plain small enough = sym (matches-only_stars pat)
loop_none bound (suc fuel) [] (t ∷ text) plain small enough = sym (matches_nothing t text)
loop_none bound (suc fuel) (p ∷ pat) (t ∷ text) plain small enough =
    let ih : glob_loop fuel pat text none ≡ matches pat text =
      loop_none bound fuel pat text plain.1 (omega arith)
        (omega (arith, mul_suc (suc (length text)) (suc bound))) in
    if_elim (λ c. resume fuel c ≡ matches (p ∷ pat) (t ∷ text)) (one_matches p t) _ _
      (λ e.
        ih
        ∙ sym (
            matches_one p t pat text (matched-IsPlain p t plain.0 e)
            ∙ ap (λ b. b && matches pat text) e))
      (λ e.
        if_elim (λ c. resume fuel c ≡ matches (p ∷ pat) (t ∷ text)) (p == b'*') _ _
          (λ star. first_star bound fuel pat text p t plain small enough ((==_iff p b'*').0 star))
          (λ other.
            sym (matches_one p t pat text (ground arith) ∙ ap (λ b. b && matches pat text) e)))

-- On a text without a '*', the matcher with its backtracking decides what the pattern means, for
-- every pattern, and its fuel is enough.
pub glob_segment-matches :
    (pat text : Bytes) → All IsPlain text → glob_segment pat text ≡ matches pat text
unfolding glob_segment glob_fuel
glob_segment-matches pat text plain =
    loop_none (length pat) _ pat text plain (omega arith) (omega arith)

any_end : (s : Bytes) → any_suffix (matches []) s ≡ true
unfolding any_suffix matches
any_end [] = refl
any_end (c ∷ s) = any_end s

two_rounds : (n c : ℕ) (s : Bytes) → glob_loop (suc (suc n)) (b'*' ∷ []) (b'*' ∷ c ∷ s) none ≡ false
unfolding glob_loop step backtrack one_matches
two_rounds n c s = refl

star_fuel : (c : ℕ) (s : Bytes) → (n : ℕ) × (glob_fuel (b'*' ∷ []) (b'*' ∷ c ∷ s) ≡ suc (suc n))
unfolding glob_fuel
star_fuel c s = ((length s + 3) * 2, omega arith)

-- A text of two bytes or more that begins with a star is one that the pattern of one star means, and
-- the matcher says that it does not match.
pub glob_segment_star :
    (c : ℕ) (s : Bytes)
    → (matches (b'*' ∷ []) (b'*' ∷ c ∷ s) ≡ true)
      × (glob_segment (b'*' ∷ []) (b'*' ∷ c ∷ s) ≡ false)
unfolding glob_segment
glob_segment_star c s = (
  matches-star [] (b'*' ∷ c ∷ s) ∙ any_end (b'*' ∷ c ∷ s),
  (let f = star_fuel c s in rw (f.1) (two_rounds f.0 c s)),
)
