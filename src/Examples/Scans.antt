-- ===== src/Examples/Scans.antt =====
-- A scan of a directory with one file and one empty directory, and batches that go on the wire.
use wsldrive.Prelude.{
  ℕ, ◌+◌, ◌≤◌, ◌≡◌, refl, true, false, List, [], ◌∷◌, Bytes, bytes_eq, bytes_eq_sound, Option, none,
  some, if◌then◌else◌, arith, Bool-cases, inl, inr, ap, sym, ◌∙◌, if_elim,
}
use wsldrive.Prelude.Int.{pos}
use wsldrive.Types.{upsert, remove, removed, modified, file}
use wsldrive.Disk.{Disk, Entry, regular_type, directory_type, fs_append, other_error}
use wsldrive.Tree.{empty_tree}
use wsldrive.Scanner.{scan_tree, read_attributes, join_relative}
use wsldrive.Scanner.Order.{collect}
use wsldrive.Scanner.Finite.{IsFinite, total}
use wsldrive.Scanner.Loads.{IsScanned, scan_tree-load_snapshot}
use wsldrive.Coalescer.{PlannedOp}
use wsldrive.Protocol.Invalidations.{InvalidationOp, InvalidationBatch}
use wsldrive.Server.Flush.{resolve_op, broadcast_batch, is_rescan}
use wsldrive.Server.Flush.Chunks.{IsSplit, broadcast_batch-IsSplit}
use wsldrive.Server.Flush.Resolution.{IsTrue, resolve_op-IsTrue}
use wsldrive.Examples.Agent.{World, toy, srv, name_a}

abbrev empty_entry : Entry
empty_entry = record {
  status = some (regular_type, 0);
  entry_size = some 0;
  link_target = none;
  last_write = some (pos 0);
}

-- "a" is a directory, "b" is a file.
abbrev listed : Bytes → Option (List (Bytes × Entry))
listed p =
    if bytes_eq p srv
    then some (
        (name_a, record empty_entry { status = some (directory_type, 0) })
        ∷ (b'b' ∷ [], empty_entry)
        ∷ [])
    else some []

abbrev disk : Disk World
disk = record toy { listing = λ p w. listed p; directory_at = λ p w. true }

abbrev weight : Bytes → ℕ
weight p = if bytes_eq p srv then 3 else 1

abbrev weigh : Bytes → Option (List (Bytes × Entry)) → ℕ
weigh p none = 0
weigh p (some entries) = total weight p entries

root_total : weigh srv (listed srv) ≡ 2
unfolding bytes_eq fs_append wsldrive.Disk.ends_with_slash wsldrive.Paths.starts_with_slash
root_total = refl

root_weight : weight srv ≡ 3
unfolding bytes_eq
root_weight = refl

shrinks :
    (p : Bytes) (entries : List (Bytes × Entry))
    → listed p ≡ some entries
    → total weight p entries + 1 ≤ weight p
shrinks p entries e = elim (Bool-cases (bytes_eq p srv)) [
  | inl b ↦ at_root (bytes_eq_sound p srv b)
  | inr b ↦ below b
]
  where
    at_root : p ≡ srv → total weight p entries + 1 ≤ weight p
    at_root same =
        let here = ap (weigh srv) (sym (ap listed same) ∙ e) in
        rw same (omega (arith, here, root_total, root_weight))

    below : bytes_eq p srv ≡ false → total weight p entries + 1 ≤ weight p
    below b = let there = ap (weigh p) e in omega (arith, empty b, there, lightest b)
      where
        empty : bytes_eq p srv ≡ false → weigh p (listed p) ≡ 0
        empty b = rw b refl

        lightest : bytes_eq p srv ≡ false → weight p ≡ 1
        lightest b = rw b refl

disk-IsFinite : (w : World) → IsFinite disk w weight
disk-IsFinite w = record {
  positive = λ p. if_elim (λ n. 1 ≤ n) (bytes_eq p srv) 3 1 (λ _. omega arith) (λ _. omega arith);
  shrinks = shrinks;
}

scan_tree-load_snapshot_example :
    IsScanned disk []
      (λ rel is_dir seen. false)
      empty_tree
      (scan_tree 3 disk [] srv collect (λ rel is_dir seen. false) true [])
scan_tree-load_snapshot_example =
    scan_tree-load_snapshot disk [] (λ rel is_dir seen. false) weight 3 srv true empty_tree
      (disk-IsFinite []) (omega (arith, root_weight)) refl

abbrev moved : PlannedOp
moved = record { kind = remove; path = name_a; appeared = false; change = removed; cookie = 0 }

-- The event said removed, and the disk has the file.
abbrev there : InvalidationOp
there = record {
  kind = upsert;
  path = name_a;
  attr = record { size = 0; mtime_ns = pos 0; mode = 0; kind = file };
  change = modified;
  cookie = 0;
}

there_resolved : resolve_op toy [] srv [] moved ≡ some there
unfolding resolve_op wsldrive.Server.Flush.is_left_out is_rescan wsldrive.Server.Flush.checked
    read_attributes wsldrive.Scanner.or_not_found wsldrive.Scanner.attributes_from
    wsldrive.Scanner.is_other wsldrive.Scanner.kind_of_type wsldrive.Server.Flush.present
    wsldrive.Server.Flush.as_planned wsldrive.Scanner.scanned_size wsldrive.Server.Flush.is_removed
    wsldrive.Scanner.or_zero
there_resolved = refl

moved_per_path : is_rescan moved.kind ≡ false
unfolding is_rescan
moved_per_path = refl

resolve_op-IsTrue_example :
    IsTrue (read_attributes toy (join_relative srv name_a) []) there × (there.path ≡ name_a)
resolve_op-IsTrue_example =
    resolve_op-IsTrue toy [] srv [] moved there moved_per_path there_resolved

abbrev batch : InvalidationBatch
batch = record { generation = 5; ops = there ∷ there ∷ [] }

broadcast_batch-IsSplit_example : IsSplit batch (broadcast_batch 40 batch)
broadcast_batch-IsSplit_example = broadcast_batch-IsSplit 40 batch (omega arith, (omega arith, tt))
