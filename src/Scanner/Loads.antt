-- ===== src/Scanner/Loads.antt =====
-- A scan and the tree: what `scan_tree` collects, `MetadataTree::load_snapshot` accepts.
use wsldrive.Prelude.{
  ℕ, ◌+◌, ◌≤◌, ◌≡◌, refl, ◌∙◌, Bool, true, List, [], Bytes, length, Option, none, some, arith,
  if◌then◌else◌,
}
use wsldrive.Types.{Result, ok}
use wsldrive.Disk.{Disk}
use wsldrive.Protocol.Messages.{SnapshotEntry}
use wsldrive.Tree.{MetadataTree}
use wsldrive.Tree.Snapshot.{load_snapshot}
use wsldrive.Tree.Counts.{parents_precede, load_snapshot-Loaded}
use wsldrive.Scanner.Finite.{IsFinite, queued, scan_loop_ends}
use wsldrive.Scanner.Order.{collect, IsOrdered, scan_loop-IsOrdered}
use wsldrive.Scanner.{ScanStats, Walk, scan_loop, first_walk, scan_tree}

first_walk-IsOrdered : (root : Bytes) → IsOrdered (first_walk root [])
unfolding first_walk parents_precede
first_walk-IsOrdered root = record { numbered = refl; ordered = refl; known = (omega arith, tt) }

module _ {W : Type 0} (disk : Disk W) (w : W)
    (skip : Bytes → Bool → List SnapshotEntry → Bool) where
  abbrev walked : ℕ → Bytes → Bool → Option (Walk (List SnapshotEntry))
  walked fuel root one_file_system =
      scan_loop disk w collect skip (if one_file_system then disk.device root w else none) fuel
        (first_walk root [])

  -- The end of a scan that has read everything: its entries make a tree.
  pub record IsScanned (t : MetadataTree) (r : Option (Result ScanStats × List SnapshotEntry))
      : Type 0 where
    pub stats : ScanStats
    pub entries : List SnapshotEntry
    pub result : r ≡ some (ok stats, entries)
    pub accepted : (load_snapshot t entries).0 ≡ ok tt
    pub counted :
        (load_snapshot t entries).1.live + (load_snapshot t entries).1.dropped ≡ 1 + length entries

  -- On a finite tree the scan of a directory ends within as many rounds as the weight of its path,
  -- and the snapshot that it has collected is accepted by load_snapshot, whatever entries are
  -- skipped: each of them is then a live node or counted as dropped, beside the root.
  pub scan_tree-load_snapshot :
      (weight : Bytes → ℕ) (fuel : ℕ) (root : Bytes) (one_file_system : Bool) (t : MetadataTree)
      → IsFinite disk w weight
      → weight root ≤ fuel
      → disk.directory_at root w ≡ true
      → IsScanned t (scan_tree fuel disk w root collect skip one_file_system [])
  unfolding scan_tree
  scan_tree-load_snapshot weight fuel root one_file_system t fin enough is_there =
      let root_dev = (if one_file_system then disk.device root w else none) in
      let (k, e) =
        scan_loop_ends disk w collect skip root_dev weight fin fuel (first_walk root []) starts in
      let ordered =
        scan_loop-IsOrdered disk w skip root_dev fuel (first_walk root []) k
          (first_walk-IsOrdered root) e in
      let (fine, count) = load_snapshot-Loaded t k.seen in
      record {
        stats = k.stats;
        entries = k.seen;
        result = rw (is_there, e) refl;
        accepted = fine ∙ rw ordered.ordered refl;
        counted = count ordered.ordered;
      }
    where
      starts : queued weight (first_walk {A = List SnapshotEntry} root []).queue ≤ fuel
      starts = unfold first_walk in omega arith
