-- ===== src/Server/Resolve.antt =====
-- src/agent/server.cpp, `is_contained_relative`, `path_is_under`, `resolve` and `map_fs_error`, as they
-- are compiled for POSIX. `normal_components` are the elements of a `lexically_normal()`, whose empty last one is left out: the loop of the code skips it in the root,
-- and it never equals an element of the root.
pub mod Lexical
pub mod Contained
pub mod Here
use wsldrive.Prelude.{
  ℕ, Bool, true, false, not, ◌&&◌, ◌||◌, List, [], ◌∷◌, ◌++◌, Bytes, bytes_eq, null, ◌==◌,
  if◌then◌else◌,
}
use wsldrive.Types.{
  Errc, Result, ok, err, not_found, already_exists, not_a_directory, is_a_directory,
  invalid_argument, invalid_path, io_error,
}
use wsldrive.Disk.{
  FsError, no_such_file, file_exists, not_directory, is_directory, directory_not_empty,
  bad_argument, other_error,
}
use wsldrive.Scanner.{join_relative}
use wsldrive.Paths.{is_skipped, starts_with_slash, normalize_path}
use wsldrive.Tree.Lookup.{is_dot_dot}

unfoldable pub extend_first : ℕ → List Bytes → List Bytes
extend_first c [] = (c ∷ []) ∷ []
extend_first c (w ∷ ws) = (c ∷ w) ∷ ws

-- The pieces between the slashes, empty ones included: what the rounds of
-- `while (i <= norm.size())` look at.
unfoldable pub slash_pieces : Bytes → List Bytes
slash_pieces [] = [] ∷ []
slash_pieces (c ∷ s) =
    let rest = slash_pieces s in if c == b'/' then [] ∷ rest else extend_first c rest

-- `comp.find(':') != npos`
unfoldable pub has_colon : Bytes → Bool
has_colon [] = false
has_colon (c ∷ s) = (c == b':') || has_colon s

unfoldable pub contained_pieces : List Bytes → Bool
contained_pieces [] = true
contained_pieces (comp ∷ comps) =
    if is_dot_dot comp then false else if has_colon comp then false else contained_pieces comps

unfoldable pub is_contained_relative : Bytes → Bool
is_contained_relative norm = if null norm then true else contained_pieces (slash_pieces norm)

-- A ".." behind the names so far, the last one first.
unfoldable pub step_back : Bool → List Bytes → List Bytes
step_back absolute [] = if absolute then [] else (b'.' ∷ b'.' ∷ []) ∷ []
step_back absolute (top ∷ names) =
    if is_dot_dot top then (b'.' ∷ b'.' ∷ []) ∷ top ∷ names else names

unfoldable pub normal_step : Bool → List Bytes → Bytes → List Bytes
normal_step absolute names piece =
    if is_skipped piece
    then names
    else if is_dot_dot piece
    then step_back absolute names
    else piece ∷ names

unfoldable pub normal_steps : Bool → List Bytes → List Bytes → List Bytes
normal_steps absolute names [] = names
normal_steps absolute names (piece ∷ pieces) =
    normal_steps absolute (normal_step absolute names piece) pieces

unfoldable pub forwards : List Bytes → List Bytes → List Bytes
forwards [] done = done
forwards (name ∷ names) done = forwards names (name ∷ done)

-- A path that comes to nothing is ".", unless it was empty.
unfoldable pub or_dot : Bytes → List Bytes → List Bytes
or_dot p (name ∷ names) = name ∷ names
or_dot p [] = if null p then [] else (b'.' ∷ []) ∷ []

unfoldable pub normal_components : Bytes → List Bytes
normal_components p =
    let names = forwards (normal_steps (starts_with_slash p) [] (slash_pieces p)) [] in
    if starts_with_slash p then (b'/' ∷ []) ∷ names else or_dot p names

-- `for (; ri != r.end(); ++ri, ++qi)`
unfoldable pub is_prefix : List Bytes → List Bytes → Bool
is_prefix [] q = true
is_prefix (x ∷ r) [] = false
is_prefix (x ∷ r) (y ∷ q) = if not (bytes_eq y x) then false else is_prefix r q

unfoldable pub path_is_under : Bytes → Bytes → Bool
path_is_under root p = is_prefix (normal_components root) (normal_components p)

unfoldable pub resolve : Bytes → Bytes → Result Bytes
resolve root rel =
    let norm = normalize_path rel in
    let full = join_relative root norm in
    if not (is_contained_relative norm)
    then err invalid_path
    else if not (path_is_under root full)
    then err invalid_path
    else ok full

unfoldable pub map_fs_error : FsError → Errc
map_fs_error no_such_file = not_found
map_fs_error file_exists = already_exists
map_fs_error not_directory = not_a_directory
map_fs_error is_directory = is_a_directory
map_fs_error directory_not_empty = already_exists
map_fs_error bad_argument = invalid_argument
map_fs_error other_error = io_error
