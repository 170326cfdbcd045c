-- ===== src/Scanner.antt =====
-- src/agent/scanner.hpp and scanner.cpp: attributes of entries, and the walk over a directory tree.
pub mod Order
pub mod Finite
pub mod Loads
use wsldrive.Prelude.{
  ℕ, zero, suc, ◌+◌, ◌%◌, ◌^◌, Bool, true, false, not, ◌&&◌, List, [], ◌∷◌, ◌++◌, Bytes, length,
  null, ◌==◌, Option, none, some, if◌then◌else◌,
}
use wsldrive.Prelude.Int.{pos}
use wsldrive.Types.{
  NodeKind, file, directory, symlink, other, Attributes, Result, ok, err, not_found,
  not_a_directory,
}
use wsldrive.Disk.{
  Disk, Entry, FileType, regular_type, directory_type, symlink_type, other_type, fs_append,
}
use wsldrive.Protocol.Messages.{SnapshotEntry}
use wsldrive.Tree.{is_directory}

unfoldable pub join_relative : Bytes → Bytes → Bytes
join_relative root rel = fs_append root rel

unfoldable pub kind_of_type : FileType → NodeKind
kind_of_type regular_type = file
kind_of_type directory_type = directory
kind_of_type symlink_type = symlink
kind_of_type other_type = other

unfoldable pub or_zero : Option ℕ → ℕ
or_zero none = 0
or_zero (some n) = n

unfoldable pub target_size : Option Bytes → ℕ
target_size none = 0
target_size (some target) = length target

unfoldable pub scanned_size : NodeKind → Entry → ℕ
scanned_size file e = or_zero e.entry_size
scanned_size symlink e = target_size e.link_target
scanned_size _ e = 0

-- `none` where `symlink_status` sets the error code; every other error is cleared.
unfoldable pub attributes_from : Entry → Option Attributes
attributes_from e = elim e.status [
  | none ↦ none
  | some (type, perms) ↦ some (record {
    size = scanned_size (kind_of_type type) e;
    mtime_ns = elim e.last_write [ none ↦ pos 0 | some t ↦ t ];
    mode = perms % 2 ^ 12;
    kind = kind_of_type type;
  })
]

unfoldable pub or_not_found : Option Attributes → Result Attributes
or_not_found none = err not_found
or_not_found (some a) = ok a

unfoldable pub read_attributes : {W : Type 0} → Disk W → Bytes → W → Result Attributes
read_attributes disk p w = elim (disk.entry p w) [
  | none ↦ err not_found
  | some e ↦ or_not_found (attributes_from e)
]

pub record ScanStats : Type 0 where
  pub files : ℕ
  pub directories : ℕ
  pub symlinks : ℕ
  pub skipped : ℕ

-- `Pending`: a directory that is still to be read.
pub record Waiting : Type 0 where
  pub path : Bytes
  pub rel : Bytes
  pub index : ℕ

-- The walk: what waits, the next index, the counts and what `on_entry` has made of the entries.
pub record Walk (A : Type 0) : Type 0 where
  pub queue : List Waiting
  pub next_index : ℕ
  pub stats : ScanStats
  pub seen : A

unfoldable pub skip_one : ScanStats → ScanStats
skip_one s = record s { skipped = s.skipped + 1 }

unfoldable pub count_kind : NodeKind → ScanStats → ScanStats
count_kind file s = record s { files = s.files + 1 }
count_kind directory s = record s { directories = s.directories + 1 }
count_kind symlink s = record s { symlinks = s.symlinks + 1 }
count_kind other s = s

unfoldable pub is_other : NodeKind → Bool
is_other other = true
is_other _ = false

-- `root_dev && dev && *dev != *root_dev`
unfoldable pub other_device : Option ℕ → Option ℕ → Bool
other_device none dev = false
other_device (some r) none = false
other_device (some r) (some d) = not (d == r)

module _ {W A : Type 0} (disk : Disk W) (w : W) (on_entry : SnapshotEntry → A → A)
    (skip : Bytes → Bool → A → Bool) (root_dev : Option ℕ) where
  -- A directory that is reported: the mount point of another file system is not descended into.
  unfoldable pub descend : Bytes → Bytes → Walk A → Walk A
  descend path rel k =
      if other_device root_dev (disk.device path w)
      then record k { stats = skip_one k.stats }
      else record k {
        queue = k.queue ++ record { path = path; rel = rel; index = k.next_index } ∷ [];
      }

  -- An entry that is reported to `on_entry`.
  unfoldable pub report : Waiting → Bytes → Bytes → Attributes → Walk A → Walk A
  report dir name rel a k =
      let told = record k {
        seen = on_entry (record { parent = dir.index; name = name; attr = a }) k.seen;
        stats = count_kind a.kind k.stats;
      } in
      let gone_down =
        (if is_directory a.kind then descend (fs_append dir.path name) rel told else told) in
      record gone_down { next_index = gone_down.next_index + 1 }

  unfoldable pub visit_attributes : Waiting → Bytes → Option Attributes → Walk A → Walk A
  visit_attributes dir name none k = record k { stats = skip_one k.stats }
  visit_attributes dir name (some a) k =
      let rel = (if null dir.rel then name else dir.rel ++ (b'/' ∷ name)) in
      if is_other a.kind
      then record k { stats = skip_one k.stats }
      else if skip rel (is_directory a.kind) k.seen
      then record k { stats = skip_one k.stats }
      else report dir name rel a k

  unfoldable pub visit_all : Waiting → List (Bytes × Entry) → Walk A → Walk A
  visit_all dir [] k = k
  visit_all dir ((name, e) ∷ entries) k =
      visit_all dir entries (visit_attributes dir name (attributes_from e) k)

  unfoldable pub visit_directory : Waiting → Option (List (Bytes × Entry)) → Walk A → Walk A
  visit_directory dir none k = record k { stats = skip_one k.stats }
  visit_directory dir (some entries) k = visit_all dir entries k

  -- `while (!queue.empty())`: the fuel counts the directories read, and `none` is a walk that it
  -- does not suffice for.
  unfoldable pub scan_loop : ℕ → Walk A → Option (Walk A)
  scan_loop zero k = if null k.queue then some k else none
  scan_loop (suc fuel) k = elim k.queue [
    | [] ↦ some k
    | dir ∷ queue ↦
        scan_loop fuel (visit_directory dir (disk.listing dir.path w) (record k { queue = queue }))
  ]

abbrev pub no_stats : ScanStats
no_stats = record { files = 0; directories = 0; symlinks = 0; skipped = 0 }

unfoldable pub first_walk : {A : Type 0} → Bytes → A → Walk A
first_walk root seen = record {
  queue = record { path = root; rel = []; index = 0 } ∷ [];
  next_index = 1;
  stats = no_stats;
  seen = seen;
}

-- The counts, and what `on_entry` has made of `seen`.
unfoldable pub scan_tree :
    {W A : Type 0}
    → ℕ
    → Disk W
    → W
    → Bytes
    → (SnapshotEntry → A → A)
    → (Bytes → Bool → A → Bool)
    → Bool
    → A
    → Option (Result ScanStats × A)
scan_tree fuel disk w root on_entry skip one_file_system seen =
    let root_dev = (if one_file_system then disk.device root w else none) in
    if not (disk.directory_at root w)
    then some (err not_a_directory, seen)
    else elim (scan_loop disk w on_entry skip root_dev fuel (first_walk root seen)) [
      | none ↦ none
      | some k ↦ some (ok k.stats, k.seen)
    ]
