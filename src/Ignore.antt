-- ===== src/Ignore.antt =====
-- src/core/ignore.hpp and ignore.cpp: the rules of `.wsldriveignore`.
pub mod Glob
pub mod Loop
pub mod Meaning
use wsldrive.Prelude.{
  ℕ, zero, suc, ◌+◌, ◌*◌, Bool, true, false, not, ◌&&◌, ◌||◌, List, [], ◌∷◌, ◌++◌, Bytes, length,
  null, ltb, ◌==◌, Option, none, some, if◌then◌else◌,
}

-- Where the glob matcher stands: the rest of the pattern, the rest of the text, and, once a '*' was
-- met, the pattern behind it and the text at which its run now ends.
pub record Cursor : Type 0 where
  pub pat : Bytes
  pub text : Bytes
  pub star : Option (Bytes × Bytes)

-- The `while (p < pat.size() && pat[p] == '*') ++p;` and the `return` behind it.
unfoldable pub only_stars : Bytes → Bool
only_stars [] = true
only_stars (c ∷ pat) = (c == b'*') && only_stars pat

-- `pat[p] == '?' || pat[p] == text[t]`
unfoldable pub one_matches : ℕ → ℕ → Bool
one_matches p t = (p == b'?') || (p == t)

-- `p = star + 1; t = ++mark;`, or no match.
unfoldable pub backtrack : Option (Bytes × Bytes) → Option Cursor
backtrack none = none
backtrack (some (after, [])) = none
backtrack (some (after, m ∷ mark)) =
    some (record { pat = after; text = mark; star = some (after, mark) })

-- One round of the loop, with `t < text.size()`.
unfoldable pub step : Bytes → ℕ → Bytes → Option (Bytes × Bytes) → Option Cursor
step [] t text star = backtrack star
step (p ∷ pat) t text star =
    if one_matches p t
    then some (record { pat = pat; text = text; star = star })
    else if p == b'*'
    then some (record { pat = pat; text = t ∷ text; star = some (pat, t ∷ text) })
    else backtrack star

unfoldable pub glob_loop : ℕ → Bytes → Bytes → Option (Bytes × Bytes) → Bool
glob_loop fuel pat [] star = only_stars pat
glob_loop zero pat (t ∷ text) star = false
glob_loop (suc fuel) pat (t ∷ text) star = elim (step pat t text star) [
  | none ↦ false
  | some next ↦ glob_loop fuel next.pat next.text next.star
]

-- A round shortens the text at which the run of the last '*' ends, or the pattern.
unfoldable pub glob_fuel : Bytes → Bytes → ℕ
glob_fuel pat text = (length text + 1) * (length pat + 1) + length pat + 1

unfoldable pub glob_segment : Bytes → Bytes → Bool
glob_segment pat text = glob_loop (glob_fuel pat text) pat text none

-- `s.substr(i, j - i)` for `j = s.find(sep, i)`, and what follows the separator.
unfoldable pub before : ℕ → Bytes → Bytes
before sep [] = []
before sep (c ∷ s) = if c == sep then [] else c ∷ before sep s

unfoldable pub behind : ℕ → Bytes → Bytes
behind sep [] = []
behind sep (c ∷ s) = if c == sep then s else behind sep s

-- The loop `while (i < s.size())` of `split` and of `parse`: each piece ends at a separator. A round
-- takes a byte at least.
unfoldable pub pieces : ℕ → ℕ → Bytes → List Bytes
pieces sep fuel [] = []
pieces sep zero (c ∷ s) = []
pieces sep (suc fuel) (c ∷ s) = before sep (c ∷ s) ∷ pieces sep fuel (behind sep (c ∷ s))

-- `if (j > i)`
unfoldable pub nonempty : List Bytes → List Bytes
nonempty [] = []
nonempty (p ∷ ps) = if null p then nonempty ps else p ∷ nonempty ps

unfoldable pub split : Bytes → List Bytes
split s = nonempty (pieces b'/' (length s) s)

pub record Pattern : Type 0 where
  pub segs : List Bytes
  pub anchored : Bool
  pub dir_only : Bool

unfoldable pub is_blank : ℕ → Bool
is_blank c = (c == 0x20) || (c == 0x09)

unfoldable pub trim_front : Bytes → Bytes
trim_front [] = []
trim_front (c ∷ s) = if is_blank c then trim_front s else c ∷ s

unfoldable pub trim_back : Bytes → Bytes
trim_back [] = []
trim_back (c ∷ s) = let rest = trim_back s in if null rest && is_blank c then [] else c ∷ rest

-- `line.back() == c` of a line that is not empty, and `remove_suffix(1)`.
unfoldable pub ends_with : ℕ → Bytes → Bool
ends_with c [] = false
ends_with c (b ∷ []) = b == c
ends_with c (a ∷ b ∷ s) = ends_with c (b ∷ s)

unfoldable pub remove_suffix : Bytes → Bytes
remove_suffix [] = []
remove_suffix (b ∷ []) = []
remove_suffix (a ∷ b ∷ s) = a ∷ remove_suffix (b ∷ s)

unfoldable pub chop : ℕ → Bytes → Bytes
chop c line = if ends_with c line then remove_suffix line else line

unfoldable pub starts_with : ℕ → Bytes → Bool
starts_with c [] = false
starts_with c (b ∷ s) = b == c

unfoldable pub remove_prefix : Bytes → Bytes
remove_prefix [] = []
remove_prefix (b ∷ s) = s

unfoldable pub contains : ℕ → Bytes → Bool
contains c [] = false
contains c (b ∷ s) = (b == c) || contains c s

-- The part of `parse` behind the trimming: a line that is neither empty nor a comment.
unfoldable pub parse_pattern : Bytes → Option Pattern
parse_pattern line =
    let body = chop b'/' line in
    let segs = split (if starts_with b'/' body then remove_prefix body else body) in
    if null segs
    then none
    else some
        (record { segs = segs; anchored = contains b'/' body; dir_only = ends_with b'/' line })

unfoldable pub parse_line : Bytes → Option Pattern
parse_line raw =
    let line = trim_back (trim_front (chop 0x0D raw)) in
    if null line || starts_with b'#' line then none else parse_pattern line

unfoldable pub parse_lines : List Bytes → List Pattern
parse_lines [] = []
parse_lines (line ∷ lines) = elim (parse_line line) [
  | none ↦ parse_lines lines
  | some pat ↦ pat ∷ parse_lines lines
]

-- `rules.patterns_`
unfoldable pub parse : Bytes → List Pattern
parse text = parse_lines (pieces 0x0A (length text) text)

-- The segments of an anchored pattern against as many of the path; with fewer in the path, no match.
unfoldable pub prefix_matches : List Bytes → List Bytes → Bool
prefix_matches [] segs = true
prefix_matches (p ∷ ps) [] = false
prefix_matches (p ∷ ps) (s ∷ segs) = glob_segment p s && prefix_matches ps segs

-- `pat.segs.back()`
unfoldable pub back : List Bytes → Bytes
back [] = []
back (p ∷ []) = p
back (p ∷ q ∷ ps) = back (q ∷ ps)

unfoldable pub any_segment : Bytes → Bool → Bool → List Bytes → Bool
any_segment name dir_only is_dir [] = false
any_segment name dir_only is_dir (s ∷ segs) =
    (glob_segment name s && (not dir_only || (not (null segs) || is_dir)))
    || any_segment name dir_only is_dir segs

unfoldable pub pattern_matches : Pattern → List Bytes → Bool → Bool
pattern_matches pat segs is_dir =
    if pat.anchored
    then prefix_matches pat.segs segs
      && (not pat.dir_only || (ltb (length pat.segs) (length segs) || is_dir))
    else any_segment (back pat.segs) pat.dir_only is_dir segs

unfoldable pub any_pattern : List Pattern → List Bytes → Bool → Bool
any_pattern [] segs is_dir = false
any_pattern (pat ∷ pats) segs is_dir =
    pattern_matches pat segs is_dir || any_pattern pats segs is_dir

unfoldable pub ignored : List Pattern → Bytes → Bool → Bool
ignored patterns rel is_dir =
    let segs = split rel in
    if null patterns || null segs then false else any_pattern patterns segs is_dir
