-- ===== src/Types.antt =====
-- src/core/types.hpp and src/core/error.hpp: the enums and structs that every part shares, and the
-- result type that stands for `std::expected<T, Errc>`.
use wsldrive.Prelude.{ℕ, ◌≡◌, ◌≤◌, ◌<◌, ◌^◌, Bool, true, false, refl, arith, if◌then◌else◌, ◌==◌}
use wsldrive.Prelude.Int.{ℤ, IsI64}

pub data Errc : Type 0 where
  not_found already_exists not_a_directory is_a_directory invalid_argument invalid_path : Errc
  truncated bad_magic unsupported_version corrupt io_error too_large connection_closed : Errc
  unsupported timeout protocol_error unauthorized : Errc

pub data Result {ℓ} (A : Type ℓ) : Type ℓ where
  ok : A → Result A
  err : Errc → Result A

pub data NodeKind : Type 0 where
  file directory symlink other : NodeKind

-- The values of `Errc`, and the cast back of a code between 1 and `kLastErrc`.
unfoldable pub errc_code : Errc → ℕ
errc_code not_found = 1
errc_code already_exists = 2
errc_code not_a_directory = 3
errc_code is_a_directory = 4
errc_code invalid_argument = 5
errc_code invalid_path = 6
errc_code truncated = 7
errc_code bad_magic = 8
errc_code unsupported_version = 9
errc_code corrupt = 10
errc_code io_error = 11
errc_code too_large = 12
errc_code connection_closed = 13
errc_code unsupported = 14
errc_code timeout = 15
errc_code protocol_error = 16
errc_code unauthorized = 17

unfoldable pub errc_of : ℕ → Errc
errc_of c =
    if c == 1
    then not_found
    else if c == 2
    then already_exists
    else if c == 3
    then not_a_directory
    else if c == 4
    then is_a_directory
    else if c == 5
    then invalid_argument
    else if c == 6
    then invalid_path
    else if c == 7
    then truncated
    else if c == 8
    then bad_magic
    else if c == 9
    then unsupported_version
    else if c == 10
    then corrupt
    else if c == 11
    then io_error
    else if c == 12
    then too_large
    else if c == 13
    then connection_closed
    else if c == 14
    then unsupported
    else if c == 15
    then timeout
    else if c == 16
    then protocol_error
    else unauthorized

pub errc_of-code : (e : Errc) → errc_of (errc_code e) ≡ e
unfolding errc_of errc_code
errc_of-code not_found = refl
errc_of-code already_exists = refl
errc_of-code not_a_directory = refl
errc_of-code is_a_directory = refl
errc_of-code invalid_argument = refl
errc_of-code invalid_path = refl
errc_of-code truncated = refl
errc_of-code bad_magic = refl
errc_of-code unsupported_version = refl
errc_of-code corrupt = refl
errc_of-code io_error = refl
errc_of-code too_large = refl
errc_of-code connection_closed = refl
errc_of-code unsupported = refl
errc_of-code timeout = refl
errc_of-code protocol_error = refl
errc_of-code unauthorized = refl

-- `size` is a uint64, `mtime_ns` an int64, `mode` a uint32.
pub record Attributes : Type 0 where
  pub size : ℕ
  pub mtime_ns : ℤ
  pub mode : ℕ
  pub kind : NodeKind

-- The values that the C++ types can hold.
pub record AttributesInRange (a : Attributes) : Type 0 where
  pub size_u64 : a.size < 2 ^ 64
  pub mtime_i64 : IsI64 a.mtime_ns
  pub mode_u32 : a.mode < 2 ^ 32

pub data InvalidationKind : Type 0 where
  upsert remove rescan : InvalidationKind

pub data ChangeKind : Type 0 where
  unknown created modified removed moved_from moved_to : ChangeKind

-- True for the two halves of a rename.
unfoldable pub is_move : ChangeKind → Bool
is_move moved_from = true
is_move moved_to = true
is_move _ = false

-- `static_cast<std::uint8_t>` of the enums, and the casts back of a checked code.
unfoldable pub node_kind_code : NodeKind → ℕ
node_kind_code file = 0
node_kind_code directory = 1
node_kind_code symlink = 2
node_kind_code other = 3

unfoldable pub node_kind_of : ℕ → NodeKind
node_kind_of c =
    if c == 0 then file else if c == 1 then directory else if c == 2 then symlink else other

unfoldable pub invalidation_kind_code : InvalidationKind → ℕ
invalidation_kind_code upsert = 0
invalidation_kind_code remove = 1
invalidation_kind_code rescan = 2

unfoldable pub invalidation_kind_of : ℕ → InvalidationKind
invalidation_kind_of c = if c == 0 then upsert else if c == 1 then remove else rescan

unfoldable pub change_kind_code : ChangeKind → ℕ
change_kind_code unknown = 0
change_kind_code created = 1
change_kind_code modified = 2
change_kind_code removed = 3
change_kind_code moved_from = 4
change_kind_code moved_to = 5

unfoldable pub change_kind_of : ℕ → ChangeKind
change_kind_of c =
    if c == 0
    then unknown
    else if c == 1
    then created
    else if c == 2
    then modified
    else if c == 3
    then removed
    else if c == 4
    then moved_from
    else moved_to

pub node_kind_of-code : (k : NodeKind) → node_kind_of (node_kind_code k) ≡ k
unfolding node_kind_of node_kind_code
node_kind_of-code file = refl
node_kind_of-code directory = refl
node_kind_of-code symlink = refl
node_kind_of-code other = refl

pub invalidation_kind_of-code :
    (k : InvalidationKind) → invalidation_kind_of (invalidation_kind_code k) ≡ k
unfolding invalidation_kind_of invalidation_kind_code
invalidation_kind_of-code upsert = refl
invalidation_kind_of-code remove = refl
invalidation_kind_of-code rescan = refl

pub change_kind_of-code : (k : ChangeKind) → change_kind_of (change_kind_code k) ≡ k
unfolding change_kind_of change_kind_code
change_kind_of-code unknown = refl
change_kind_of-code created = refl
change_kind_of-code modified = refl
change_kind_of-code removed = refl
change_kind_of-code moved_from = refl
change_kind_of-code moved_to = refl

pub node_kind_code-le : (k : NodeKind) → node_kind_code k ≤ 3
unfolding node_kind_code
node_kind_code-le k = ground arith

pub invalidation_kind_code-le : (k : InvalidationKind) → invalidation_kind_code k ≤ 2
unfolding invalidation_kind_code
invalidation_kind_code-le k = ground arith

pub change_kind_code-le : (k : ChangeKind) → change_kind_code k ≤ 5
unfolding change_kind_code
change_kind_code-le k = ground arith
