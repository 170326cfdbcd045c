-- ===== src/Server/Resolve/Here.antt =====
-- `resolve` under a relative root that comes to nothing.
use wsldrive.Prelude.{
  not-false, ◌≡◌, refl, sym, ap, ◌∙◌, true, false, not, List, [], ◌∷◌, ◌++◌, Bytes, null, All,
  if_elim, arith,
}
use mathlib.Core.Path.{subst}
use wsldrive.Types.{Result, err, invalid_path}
use wsldrive.Paths.{is_skipped, starts_with_slash, components, normalize_path}
use wsldrive.Paths.Components.{IsReal, real, join}
use wsldrive.Paths.Normal.{normalize_path-join, real-components-IsReal}
use wsldrive.Disk.{ends_with_slash, fs_append}
use wsldrive.Scanner.{join_relative}
use wsldrive.Server.Resolve.{
  slash_pieces, contained_pieces, is_contained_relative, or_dot, normal_steps, forwards,
  normal_components, is_prefix, path_is_under, resolve,
}
use wsldrive.Server.Resolve.Lexical.{normal_steps-fs_append, forwards_behind}
use wsldrive.Server.Resolve.Contained.{
  IsProper, contained_pieces-IsProper, starts_with_slash-join, is_contained_relative-join,
  steps_of_join,
}

-- A relative root whose names cancel out, such as ".".
pub record IsHere (root : Bytes) : Type 0 where
  pub relative : starts_with_slash root ≡ false
  pub given : null root ≡ false
  pub nowhere : normal_steps false [] (slash_pieces root) ≡ []

first_name :
    (w : Bytes) (ws : List Bytes) → IsReal w → is_prefix ((b'.' ∷ []) ∷ []) (w ∷ ws) ≡ false
unfolding is_prefix is_skipped
first_name w ws h = ground arith

starts_with_slash_relative :
    (root rel : Bytes)
    → starts_with_slash root ≡ false
    → null root ≡ false
    → starts_with_slash rel ≡ false
    → starts_with_slash (fs_append root rel) ≡ false
unfolding fs_append starts_with_slash
starts_with_slash_relative [] rel h given k = absurd (cc)
starts_with_slash_relative (c ∷ root) rel h given k = rw k (
    if_elim (λ p. starts_with_slash (p ++ rel) ≡ false) (ends_with_slash (c ∷ root)) _ _ (λ e. h)
      (λ e. h))

normal_components_here : (root : Bytes) → IsHere root → normal_components root ≡ (b'.' ∷ []) ∷ []
unfolding normal_components or_dot forwards
normal_components_here root here = rw (here.relative, here.nowhere, here.given) refl

-- The joined path comes to the names of the request alone, without the ".".
normal_components_below_here :
    (root w : Bytes) (ws : List Bytes)
    → IsHere root
    → All IsReal (w ∷ ws)
    → All IsProper (w ∷ ws)
    → normal_components (fs_append root (join (w ∷ ws))) ≡ w ∷ ws
unfolding normal_components or_dot
normal_components_below_here root w ws here h k =
    rw
      (
        starts_with_slash_relative root (join (w ∷ ws)) here.relative here.given
            (starts_with_slash-join (w ∷ ws) h),
        normal_steps-fs_append false root (join (w ∷ ws)) here.given
            (starts_with_slash-join (w ∷ ws) h),
        here.nowhere,
        steps_of_join false [] (w ∷ ws) h k,
        forwards_behind [] (w ∷ ws),
      )
      (unfold forwards in refl)

-- Under a relative root that comes to nothing, such as ".", resolve refuses every path but that of
-- the root itself: the normal form of the root is ".", and that of a path below it has no ".".
pub resolve_here :
    (root rel w : Bytes) (ws : List Bytes)
    → IsHere root
    → real (components rel) ≡ w ∷ ws
    → resolve root rel ≡ err invalid_path
unfolding resolve path_is_under join_relative
resolve_here root rel w ws here e =
    if_elim (λ (r : Result Bytes). r ≡ err invalid_path)
      (not (is_contained_relative (normalize_path rel))) _ _ (λ _. refl) (λ c. rw (outside c) refl)
  where
    real_names : All IsReal (w ∷ ws)
    real_names = subst (All IsReal) e (real-components-IsReal rel)

    norm : normalize_path rel ≡ join (w ∷ ws)
    norm = normalize_path-join rel ∙ ap join e

    outside :
        not (is_contained_relative (normalize_path rel)) ≡ false
        → is_prefix
            (normal_components root)
            (normal_components (fs_append root (normalize_path rel)))
          ≡ false
    outside c =
        let contained : contained_pieces (w ∷ ws) ≡ true =
          (sym (is_contained_relative-join (w ∷ ws) real_names)
            ∙ (ap is_contained_relative (sym norm)
                ∙ not-false (is_contained_relative (normalize_path rel)) c)) in
        rw
          (
            norm,
            normal_components_here root here,
            normal_components_below_here root w ws here real_names
                (contained_pieces-IsProper (w ∷ ws) contained),
          )
          (first_name w ws real_names.0)
