-- ===== src/Examples/Rules.antt =====
-- Runs of the ignore rules.
use wsldrive.Prelude.{◌≡◌, refl, true, false, [], ◌∷◌, ◌++◌, Bytes, arith}
use wsldrive.Ignore.{
  glob_segment, parse, ignored, glob_loop, glob_fuel, step, backtrack, one_matches, only_stars,
  split, pieces, before, behind, nonempty, parse_lines, parse_line, parse_pattern, chop, ends_with,
  remove_suffix, remove_prefix, starts_with, contains, trim_front, trim_back, is_blank, any_pattern,
  pattern_matches, prefix_matches, any_segment, back,
}
use wsldrive.Ignore.Glob.{matches}
use wsldrive.Ignore.Meaning.{glob_segment-matches, glob_segment_star}

-- "*.o"
abbrev objects : Bytes
objects = b'*' ∷ b'.' ∷ b'o' ∷ []

-- "a.b.o"
abbrev a_b_o : Bytes
a_b_o = b'a' ∷ b'.' ∷ b'b' ∷ b'.' ∷ b'o' ∷ []

glob_segment-matches_example : glob_segment objects a_b_o ≡ matches objects a_b_o
glob_segment-matches_example = glob_segment-matches objects a_b_o (
  λ e. omega arith,
  (λ e. omega arith, (λ e. omega arith, (λ e. omega arith, (λ e. omega arith, tt)))),
)

glob_segment_star_example :
    (matches (b'*' ∷ []) (b'*' ∷ b'a' ∷ []) ≡ true)
    × (glob_segment (b'*' ∷ []) (b'*' ∷ b'a' ∷ []) ≡ false)
glob_segment_star_example = glob_segment_star b'a' []

objects_match : glob_segment objects a_b_o ≡ true
unfolding glob_segment glob_loop glob_fuel step backtrack one_matches only_stars
objects_match = refl

-- "*.o" and "/out/" as lines; an object file at any depth, the directory at the root only.
abbrev rules : Bytes
rules = objects ++ 0x0A ∷ b'/' ∷ b'o' ∷ b'u' ∷ b't' ∷ b'/' ∷ 0x0D ∷ 0x0A ∷ []

ignored_paths :
    (ignored (parse rules) (b's' ∷ b'/' ∷ a_b_o) false ≡ true)
    × (ignored (parse rules) (b'o' ∷ b'u' ∷ b't' ∷ []) true ≡ true)
    × (ignored (parse rules) (b'o' ∷ b'u' ∷ b't' ∷ []) false ≡ false)
    × (ignored (parse rules) (b's' ∷ b'/' ∷ b'o' ∷ b'u' ∷ b't' ∷ []) true ≡ false)
unfolding glob_segment glob_loop glob_fuel step backtrack one_matches only_stars split pieces before
    behind nonempty parse parse_lines parse_line parse_pattern chop ends_with remove_suffix
    remove_prefix starts_with contains trim_front trim_back is_blank ignored any_pattern
    pattern_matches prefix_matches any_segment back
ignored_paths = (refl, refl, refl, refl)
