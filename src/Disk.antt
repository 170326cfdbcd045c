-- ===== src/Disk.antt =====
-- What the agent calls of the operating system's files: std::filesystem and stdio, as an interface
-- over the state of the disk. A `fs::path` is its text.
use wsldrive.Prelude.{
  ℕ, Bool, false, ◌||◌, List, [], ◌∷◌, ◌++◌, Bytes, null, ◌==◌, Option, if◌then◌else◌,
}
use wsldrive.Prelude.Int.{ℤ}
use wsldrive.Paths.{starts_with_slash}

unfoldable pub ends_with_slash : Bytes → Bool
ends_with_slash [] = false
ends_with_slash (c ∷ s) = if null s then c == b'/' else ends_with_slash s

-- `root / rel` of `fs::path` on POSIX: an absolute right side replaces the left one.
unfoldable pub fs_append : Bytes → Bytes → Bytes
fs_append root rel =
    if starts_with_slash rel
    then rel
    else (if null root || ends_with_slash root then root else root ++ b'/' ∷ []) ++ rel

-- The conditions of `std::errc` that an error code is compared with; `other_error` is none of them.
pub data FsError : Type 0 where
  no_such_file file_exists not_directory is_directory directory_not_empty bad_argument : FsError
  other_error : FsError

pub data FileType : Type 0 where
  regular_type directory_type symlink_type other_type : FileType

-- What the calls of a `fs::directory_entry` return, `none` where they set the error code: the type
-- and the permissions, the size, the target of a link, and the time in nanoseconds of the epoch.
pub record Entry : Type 0 where
  pub status : Option (FileType × ℕ)
  pub entry_size : Option ℕ
  pub link_target : Option Bytes
  pub last_write : Option ℤ

-- "rb", "wb", "r+b" and "w+b"
pub data OpenMode : Type 0 where
  reading rewriting updating creating : OpenMode

-- A `FILE*`, by its calls; a write returns the number of bytes written.
pub record File (W : Type 0) : Type 0 where
  pub seek : ℕ → W → Bool × W
  pub put : Bytes → W → ℕ × W
  pub get : ℕ → W → Bytes × W
  pub close : W → W

-- A failed `fopen` tells if `errno` is `ENOENT`.
pub data Opened (W : Type 0) : Type 0 where
  opened : File W → Opened W
  unopened : Bool → Opened W

-- The calls that only look at the disk return no new state of it. `transient` and
-- `open_transient` are the platform's tests for a failure that is worth another try.
pub record Disk (W : Type 0) : Type 0 where
  pub entry : Bytes → W → Option Entry
  pub listing : Bytes → W → Option (List (Bytes × Entry))
  pub device : Bytes → W → Option ℕ
  pub directory_at : Bytes → W → Bool
  pub size_of : Bytes → W → Option ℕ
  pub link_at : Bytes → W → Option FsError × Bytes
  pub open_file : Bytes → OpenMode → W → Opened W × W
  pub resize_file : Bytes → ℕ → W → Option FsError × W
  pub create_directory : Bytes → W → (Bool × Option FsError) × W
  pub remove_file : Bytes → W → (Bool × Option FsError) × W
  pub rename_file : Bytes → Bytes → W → Option FsError × W
  pub transient : FsError → Bytes → W → Bool
  pub open_transient : Bytes → W → Bool
