-- ===== src/Server/Resolve/Lexical.antt =====
-- Joined paths and their normal form: the elements of `root / rel` are those of the root and then
-- those of a relative path without "..".
use wsldrive.Prelude.{
  ℕ, ◌≡◌, refl, sym, ap, ◌∙◌, Bool, true, false, List, [], ◌∷◌, ◌++◌, append_assoc, append-nil,
  Bytes, null, ◌==◌, ==_iff, All, Bool-cases, inl, inr, if_elim, arith,
}
use wsldrive.Paths.{is_path_separator, is_skipped, starts_with_slash}
use wsldrive.Paths.Components.{NoSeparator, join}
use wsldrive.Tree.Lookup.{is_dot_dot}
use wsldrive.Disk.{ends_with_slash, fs_append}
use wsldrive.Server.Resolve.{extend_first, slash_pieces, normal_step, normal_steps, forwards}

-- There is always a first piece.
slash_pieces_head : (s : Bytes) → (w : Bytes) × (ws : List Bytes) × (slash_pieces s ≡ w ∷ ws)
unfolding slash_pieces extend_first
slash_pieces_head [] = ([], [], refl)
slash_pieces_head (c ∷ s) = elim (Bool-cases (c == b'/')) [
  | inl e ↦ ([], slash_pieces s, rw e refl)
  | inr e ↦ let (w, ws, h) = slash_pieces_head s in (c ∷ w, ws, rw (e, h) refl)
]

extend_first-append :
    (c : ℕ) (s : Bytes) (ws : List Bytes)
    → extend_first c (slash_pieces s ++ ws) ≡ extend_first c (slash_pieces s) ++ ws
unfolding extend_first
extend_first-append c s ws = let (w, rest, h) = slash_pieces_head s in rw h refl

-- A slash separates the pieces before it from those behind it.
pub slash_pieces-append :
    (a b : Bytes) → slash_pieces (a ++ (b'/' ∷ b)) ≡ slash_pieces a ++ slash_pieces b
unfolding slash_pieces
slash_pieces-append [] b = refl
slash_pieces-append (c ∷ a) b = elim (Bool-cases (c == b'/')) [
  | inl e ↦ rw (e, slash_pieces-append a b) refl
  | inr e ↦ rw (e, slash_pieces-append a b) (extend_first-append c a (slash_pieces b))
]

no_slash : (c : ℕ) → is_path_separator c ≡ false → (c == b'/') ≡ false
unfolding is_path_separator
no_slash c h = ground arith

-- A text without a slash is one piece.
pub slash_pieces_whole : (w : Bytes) → NoSeparator w → slash_pieces w ≡ w ∷ []
unfolding slash_pieces extend_first
slash_pieces_whole [] h = refl
slash_pieces_whole (c ∷ w) h = rw (no_slash c h.0, slash_pieces_whole w h.1) refl

-- The pieces of joined components, of which there is one at least.
pub slash_pieces-join :
    (w : Bytes) (ws : List Bytes) → All NoSeparator (w ∷ ws) → slash_pieces (join (w ∷ ws)) ≡ w ∷ ws
unfolding join
slash_pieces-join w [] h = slash_pieces_whole w h.0
slash_pieces-join w (v ∷ ws) h =
    slash_pieces-append w (join (v ∷ ws))
    ∙ (ap (λ p. p ++ slash_pieces (join (v ∷ ws))) (slash_pieces_whole w h.0)
        ∙ ap (◌∷◌ w) (slash_pieces-join v ws h.1))

-- Names that are neither skipped nor "..".
abbrev pub IsName : Bytes → Type 0
IsName w = (is_skipped w ≡ false) × (is_dot_dot w ≡ false)

pub normal_steps-append :
    (absolute : Bool) (names xs ys : List Bytes)
    → normal_steps absolute names (xs ++ ys)
      ≡ normal_steps absolute (normal_steps absolute names xs) ys
unfolding normal_steps
normal_steps-append absolute names [] ys = refl
normal_steps-append absolute names (x ∷ xs) ys =
    normal_steps-append absolute (normal_step absolute names x) xs ys

-- Names are taken over as they are.
pub normal_steps_names :
    (absolute : Bool) (names ws : List Bytes)
    → All IsName ws
    → normal_steps absolute names ws ≡ forwards ws names
unfolding normal_steps normal_step forwards
normal_steps_names absolute names [] h = refl
normal_steps_names absolute names (w ∷ ws) h =
    rw (h.0.0, h.0.1) (normal_steps_names absolute (w ∷ names) ws h.1)

forwards-forwards : (a b c : List Bytes) → forwards (forwards a b) c ≡ forwards b (a ++ c)
unfolding forwards
forwards-forwards [] b c = refl
forwards-forwards (x ∷ a) b c = forwards-forwards a (x ∷ b) c

forwards_onto : (a b : List Bytes) → forwards a b ≡ forwards a [] ++ b
unfolding forwards
forwards_onto [] b = refl
forwards_onto (x ∷ a) b =
    forwards_onto a (x ∷ b)
    ∙ (sym (append_assoc (forwards a []) (x ∷ []) b)
        ∙ ap (λ p. p ++ b) (sym (forwards_onto a (x ∷ []))))

-- The names of a path, in their order, are those of its front and then those behind it.
pub forwards_behind :
    (names ws : List Bytes) → forwards (forwards ws names) [] ≡ forwards names [] ++ ws
forwards_behind names ws =
    forwards-forwards ws names [] ∙ (ap (forwards names) (append-nil ws) ∙ forwards_onto names ws)

skip_empty :
    (absolute : Bool) (names : List Bytes) → normal_steps absolute names (slash_pieces []) ≡ names
unfolding normal_steps normal_step is_skipped slash_pieces
skip_empty absolute names = refl

-- A text that ends in a slash has something before it.
cut_slash : (s : Bytes) → ends_with_slash s ≡ true → (a : Bytes) × (s ≡ a ++ (b'/' ∷ []))
unfolding ends_with_slash
cut_slash [] h = absurd (cc)
cut_slash (c ∷ []) h = ([], ap (λ x. x ∷ []) ((==_iff c b'/').0 h))
cut_slash (c ∷ d ∷ s) h = let (a, e) = cut_slash (d ∷ s) h in (c ∷ a, ap (◌∷◌ c) e)

slash_behind : (a rel : Bytes) → (a ++ (b'/' ∷ [])) ++ rel ≡ a ++ (b'/' ∷ rel)
slash_behind a rel = append_assoc a (b'/' ∷ []) rel

-- The steps over `root / rel` are the steps over the root and then those over the relative path.
pub normal_steps-fs_append :
    (absolute : Bool) (root rel : Bytes)
    → null root ≡ false
    → starts_with_slash rel ≡ false
    → normal_steps absolute [] (slash_pieces (fs_append root rel))
      ≡ normal_steps absolute (normal_steps absolute [] (slash_pieces root)) (slash_pieces rel)
unfolding fs_append
normal_steps-fs_append absolute root rel nonempty relative =
    rw (relative, nonempty)
      (if_elim
        (λ p.
          normal_steps absolute [] (slash_pieces (p ++ rel))
          ≡ normal_steps absolute (normal_steps absolute [] (slash_pieces root)) (slash_pieces rel))
        (ends_with_slash root) _ _ (λ e. at_slash (cut_slash root e)) (λ e. behind root))
  where
    behind :
        (a : Bytes)
        → normal_steps absolute [] (slash_pieces ((a ++ (b'/' ∷ [])) ++ rel))
          ≡ normal_steps absolute (normal_steps absolute [] (slash_pieces a)) (slash_pieces rel)
    behind a =
        ap (λ p. normal_steps absolute [] p)
          (ap slash_pieces (slash_behind a rel) ∙ slash_pieces-append a rel)
        ∙ normal_steps-append absolute [] (slash_pieces a) (slash_pieces rel)

    ended :
        (a : Bytes)
        → normal_steps absolute [] (slash_pieces (a ++ (b'/' ∷ [])))
          ≡ normal_steps absolute [] (slash_pieces a)
    ended a =
        ap (normal_steps absolute []) (slash_pieces-append a [])
        ∙ (normal_steps-append absolute [] (slash_pieces a) (slash_pieces [])
            ∙ skip_empty absolute (normal_steps absolute [] (slash_pieces a)))

    at_slash :
        (a : Bytes) × (root ≡ a ++ (b'/' ∷ []))
        → normal_steps absolute [] (slash_pieces (root ++ rel))
          ≡ normal_steps absolute (normal_steps absolute [] (slash_pieces root)) (slash_pieces rel)
    at_slash (a, e) =
        rw e (behind a ∙ ap (λ n. normal_steps absolute n (slash_pieces rel)) (sym (ended a)))
