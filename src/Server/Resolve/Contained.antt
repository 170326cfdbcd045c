-- ===== src/Server/Resolve/Contained.antt =====
-- What `resolve` accepts, and where the paths that it returns lie.
use wsldrive.Prelude.{
  ◌≡◌, refl, sym, ap, ◌∙◌, Bool, true, false, List, [], ◌∷◌, ◌++◌, append-nil, Bytes, bytes_eq_refl,
  null, All, Bool-cases, inl, inr, if◌then◌else◌, if_elim, arith,
}
use mathlib.Core.Path.{subst}
use wsldrive.Types.{ok, err, invalid_path}
use wsldrive.Paths.{is_path_separator, is_skipped, starts_with_slash, components, normalize_path}
use wsldrive.Paths.Components.{NoSeparator, IsReal, real, join}
use wsldrive.Paths.Normal.{normalize_path-join, real-components-IsReal}
use wsldrive.Tree.Lookup.{is_dot_dot}
use wsldrive.Disk.{ends_with_slash, fs_append}
use wsldrive.Scanner.{join_relative}
use wsldrive.Server.Resolve.{
  slash_pieces, has_colon, contained_pieces, is_contained_relative, normal_step, normal_steps,
  forwards, normal_components, is_prefix, path_is_under, resolve,
}
use wsldrive.Server.Resolve.Lexical.{
  slash_pieces-join, IsName, normal_steps_names, normal_steps-fs_append, forwards_behind,
}

-- What an accepted path is made of: names other than "..", without a colon.
abbrev pub IsProper : Bytes → Type 0
IsProper w = (is_dot_dot w ≡ false) × (has_colon w ≡ false)

pub contained_pieces-IsProper : (ws : List Bytes) → contained_pieces ws ≡ true → All IsProper ws
unfolding contained_pieces
contained_pieces-IsProper [] h = tt
contained_pieces-IsProper (w ∷ ws) h = ground (arith, contained_pieces-IsProper ws)

-- The pieces of joined components are the components; of none, one empty piece.
abbrev or_empty : List Bytes → List Bytes
or_empty [] = [] ∷ []
or_empty (w ∷ ws) = w ∷ ws

real-NoSeparator : (ws : List Bytes) → All IsReal ws → All NoSeparator ws
real-NoSeparator [] h = tt
real-NoSeparator (w ∷ ws) h = (h.0.1, real-NoSeparator ws h.1)

slash_pieces-join_real : (ws : List Bytes) → All IsReal ws → slash_pieces (join ws) ≡ or_empty ws
slash_pieces-join_real [] h = unfold join slash_pieces in refl
slash_pieces-join_real (w ∷ ws) h = slash_pieces-join w ws (real-NoSeparator (w ∷ ws) h)

relative_word : (w s : Bytes) → IsReal w → starts_with_slash (w ++ s) ≡ false
unfolding starts_with_slash is_skipped is_path_separator
relative_word [] s h = absurd (cc)
relative_word (c ∷ w) s h = ground (arith)

pub starts_with_slash-join : (ws : List Bytes) → All IsReal ws → starts_with_slash (join ws) ≡ false
unfolding join
starts_with_slash-join [] h = unfold starts_with_slash in refl
starts_with_slash-join (w ∷ []) h =
    ap starts_with_slash (sym (append-nil w)) ∙ relative_word w [] h.0
starts_with_slash-join (w ∷ v ∷ ws) h = relative_word w (b'/' ∷ join (v ∷ ws)) h.0

null-join : (w : Bytes) (ws : List Bytes) → IsReal w → null (join (w ∷ ws)) ≡ false
unfolding join is_skipped
null-join [] ws h = absurd (cc)
null-join (c ∷ w) [] h = refl
null-join (c ∷ w) (v ∷ ws) h = refl

-- The test of a normalised path is the test of its components.
pub is_contained_relative-join :
    (ws : List Bytes) → All IsReal ws → is_contained_relative (join ws) ≡ contained_pieces ws
unfolding is_contained_relative
is_contained_relative-join [] h = unfold join contained_pieces in refl
is_contained_relative-join (w ∷ ws) h =
    rw (null-join w ws h.0) (ap contained_pieces (slash_pieces-join_real (w ∷ ws) h))

names_of : (ws : List Bytes) → All IsReal ws → All IsProper ws → All IsName ws
names_of [] h k = tt
names_of (w ∷ ws) h k = ((h.0.0, k.0.0), names_of ws h.1 k.1)

pub steps_of_join :
    (absolute : Bool) (names ws : List Bytes)
    → All IsReal ws
    → All IsProper ws
    → normal_steps absolute names (slash_pieces (join ws)) ≡ forwards ws names
steps_of_join absolute names [] h k =
    unfold join slash_pieces normal_steps normal_step is_skipped forwards in refl
steps_of_join absolute names (w ∷ ws) h k =
    ap (normal_steps absolute names) (slash_pieces-join_real (w ∷ ws) h)
    ∙ normal_steps_names absolute names (w ∷ ws) (names_of (w ∷ ws) h k)

starts_with_slash-fs_append :
    (root rel : Bytes)
    → starts_with_slash root ≡ true
    → starts_with_slash rel ≡ false
    → starts_with_slash (fs_append root rel) ≡ true
unfolding fs_append starts_with_slash
starts_with_slash-fs_append [] rel h k = absurd (cc)
starts_with_slash-fs_append (c ∷ root) rel h k = rw k (
    if_elim (λ p. starts_with_slash (p ++ rel) ≡ true) (ends_with_slash (c ∷ root)) _ _ (λ e. h)
      (λ e. h))

-- The elements of a joined path, under an absolute root.
normal_components-join :
    (root : Bytes) (ws : List Bytes)
    → starts_with_slash root ≡ true
    → All IsReal ws
    → All IsProper ws
    → normal_components (fs_append root (join ws)) ≡ normal_components root ++ ws
unfolding normal_components
normal_components-join root ws absolute h k =
    rw
      (
        absolute,
        starts_with_slash-fs_append root (join ws) absolute (starts_with_slash-join ws h),
        normal_steps-fs_append true root (join ws) (nonempty root absolute)
            (starts_with_slash-join ws h),
        steps_of_join true (normal_steps true [] (slash_pieces root)) ws h k,
      )
      (ap (◌∷◌ (b'/' ∷ [])) (forwards_behind (normal_steps true [] (slash_pieces root)) ws))
  where
    nonempty : (root : Bytes) → starts_with_slash root ≡ true → null root ≡ false
    nonempty [] e = unfold starts_with_slash in absurd (cc)
    nonempty (c ∷ root) e = refl

is_prefix-append : (r q : List Bytes) → is_prefix r (r ++ q) ≡ true
unfolding is_prefix
is_prefix-append [] q = refl
is_prefix-append (x ∷ r) q = rw (bytes_eq_refl x) (is_prefix-append r q)

-- A path below the root, at proper names.
pub record IsBelow (root : Bytes) (ws : List Bytes) (full : Bytes) : Type 0 where
  pub proper : All IsProper ws
  pub placed : normal_components full ≡ normal_components root ++ ws

below :
    (root rel : Bytes)
    → starts_with_slash root ≡ true
    → contained_pieces (real (components rel)) ≡ true
    → IsBelow root (real (components rel)) (join_relative root (normalize_path rel))
unfolding join_relative
below root rel absolute contained =
    let proper = contained_pieces-IsProper (real (components rel)) contained in
    record {
      proper = proper;
      placed = rw (normalize_path-join rel) (
          normal_components-join root (real (components rel)) absolute (real-components-IsReal rel)
            proper);
    }

-- Under an absolute root, resolve accepts a request exactly if no component of it is ".." or has a
-- colon, and then returns the joined path: the second check, that the result is under the root,
-- never refuses what the first one has let through.
pub resolve_lem :
    (root rel : Bytes)
    → starts_with_slash root ≡ true
    → resolve root rel ≡ (
        if contained_pieces (real (components rel))
        then ok (join_relative root (normalize_path rel))
        else err invalid_path)
unfolding resolve path_is_under
resolve_lem root rel absolute =
    rw contained (elim (Bool-cases (contained_pieces (real (components rel)))) [
      | inl e ↦
          rw
            (
              e,
              (below root rel absolute e).placed,
              is_prefix-append (normal_components root) (real (components rel)),
            )
            refl
      | inr e ↦ rw e refl
    ])
  where
    contained :
        is_contained_relative (normalize_path rel) ≡ contained_pieces (real (components rel))
    contained =
        ap is_contained_relative (normalize_path-join rel)
        ∙ is_contained_relative-join (real (components rel)) (real-components-IsReal rel)

-- Whatever text a peer sends, a path that resolve returns under an absolute root has the elements
-- of the root and then the components of the request, none of which is ".." or has a colon.
pub resolve-IsBelow :
    (root rel full : Bytes)
    → starts_with_slash root ≡ true
    → resolve root rel ≡ ok full
    → IsBelow root (real (components rel)) full
resolve-IsBelow root rel full absolute resolved =
    elim (Bool-cases (contained_pieces (real (components rel)))) [
      | inl e ↦
          let target = join_relative root (normalize_path rel) in
          let accepted : ok full ≡ ok target =
            (sym resolved ∙ (resolve_lem root rel absolute ∙ rw e refl)) in
          let same : target ≡ full = cc in
          subst (IsBelow root (real (components rel))) same (below root rel absolute e)
      | inr e ↦
          let refused : ok full ≡ err invalid_path =
            (sym resolved ∙ (resolve_lem root rel absolute ∙ rw e refl)) in
          absurd (cc)
    ]
