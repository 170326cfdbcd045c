-- ===== src/Server/Flush.antt =====
-- src/agent/server.cpp, the loop body of `flush_loop`, `append_subtrees` and `broadcast_batch`: a batch
-- of planned operations becomes invalidation frames. The disk is looked at as it is when the batch is
-- taken.
pub mod Chunks
pub mod Resolution
use wsldrive.Prelude.{
  ℕ, zero, suc, ◌+◌, ◌*◌, ◌/◌, ◌^◌, min, Bool, true, false, not, ◌&&◌, ◌||◌, List, [], ◌∷◌, ◌++◌,
  map, Bytes, bytes_eq, length, null, take, get_elem?, ltb, Option, none, some, if◌then◌else◌,
}
use wsldrive.Types.{
  Errc, Result, ok, err, Attributes, InvalidationKind, upsert, remove, rescan, ChangeKind, unknown,
  created, modified, removed, moved_from,
}
use wsldrive.Disk.{Disk}
use wsldrive.Scanner.{join_relative, read_attributes, is_other, scan_tree}
use wsldrive.Paths.{path_is_under}
use wsldrive.Ignore.{Pattern, ignored}
use wsldrive.Coalescer.{PlannedOp, is_source, repair_op, any_half, sort, bytes_lt}
use wsldrive.Protocol.Header.{max_payload, write_frame}
use wsldrive.Protocol.MsgTypes
use wsldrive.Protocol.Messages.{SnapshotEntry}
use wsldrive.Protocol.Invalidations.{
  InvalidationOp, InvalidationBatch, default_attributes, write_invalidation,
}
use wsldrive.Tree.{is_directory}

unfoldable pub is_rescan : InvalidationKind → Bool
is_rescan rescan = true
is_rescan _ = false

unfoldable pub is_upsert_kind : InvalidationKind → Bool
is_upsert_kind upsert = true
is_upsert_kind _ = false

unfoldable pub is_removed : ChangeKind → Bool
is_removed removed = true
is_removed _ = false

unfoldable pub as_planned : PlannedOp → InvalidationOp
as_planned op = record {
  kind = op.kind;
  path = op.path;
  attr = default_attributes;
  change = op.change;
  cookie = op.cookie;
}

-- The path is gone: removed, unless the event said that it is the source of a move.
unfoldable pub gone : PlannedOp → InvalidationOp
gone op = record (as_planned op) {
  kind = remove;
  change = if not (is_source op.change) then removed else op.change;
  cookie = if not (is_source op.change) then 0 else op.cookie;
}

-- The path is there: neither removed nor the source of a move.
unfoldable pub present : Attributes → PlannedOp → InvalidationOp
present attr op = record (as_planned op) {
  kind = upsert;
  attr = attr;
  change = if is_removed op.change || is_source op.change then modified else op.change;
  cookie = if is_removed op.change || is_source op.change then 0 else op.cookie;
}

unfoldable pub checked : PlannedOp → Result Attributes → Option InvalidationOp
checked op (err e) = some (gone op)
checked op (ok attr) = if is_other attr.kind then none else some (present attr op)

-- Neither reading of the path, as a file or as a directory, is left out by the rules.
unfoldable pub is_left_out : List Pattern → PlannedOp → Bool
is_left_out ignore op =
    not (null ignore)
    && (not (is_rescan op.kind) && (ignored ignore op.path false || ignored ignore op.path true))

unfoldable pub is_new_directory : PlannedOp → InvalidationOp → Bool
is_new_directory op out = op.appeared && (is_upsert_kind out.kind && is_directory out.attr.kind)

-- Puts the change and the cookie of a repaired operation back.
unfoldable pub with_move : InvalidationOp → PlannedOp → InvalidationOp
with_move out op = record out { change = op.change; cookie = op.cookie }

unfoldable pub move_of : InvalidationOp → PlannedOp
move_of out = record {
  kind = out.kind;
  path = out.path;
  appeared = false;
  change = out.change;
  cookie = out.cookie;
}

-- `repair_move_pairs` at operations of the wire.
unfoldable pub repair_ops : List InvalidationOp → List InvalidationOp
repair_ops ops =
    let moves = map move_of ops in
    if any_half moves then map (λ o. with_move o (repair_op moves (move_of o))) ops else ops

-- `present.contains(p)`
unfoldable pub contains : List Bytes → Bytes → Bool
contains [] p = false
contains (q ∷ paths) p = bytes_eq q p || contains paths p

-- What the scans of `append_subtrees` keep: the path of every entry by its index, the operations
-- appended, and how many entries there were.
pub record Expansion : Type 0 where
  pub rels : List Bytes
  pub added : List InvalidationOp
  pub appended : ℕ
  pub over : Bool

unfoldable pub path_at : List Bytes → ℕ → Bytes
path_at rels k = elim (get_elem? rels k) [ none ↦ [] | some p ↦ p ]

abbrev pub created_op : Bytes → Attributes → InvalidationOp
created_op p attr = record { kind = upsert; path = p; attr = attr; change = created; cookie = 0 }

abbrev pub rescan_all : InvalidationOp
rescan_all = record {
  kind = rescan;
  path = [];
  attr = default_attributes;
  change = unknown;
  cookie = 0;
}

-- `on_entry` of the scan.
unfoldable pub expand_entry : ℕ → List Bytes → SnapshotEntry → Expansion → Expansion
expand_entry limit known e x =
    let p = path_at x.rels e.parent ++ (b'/' ∷ e.name) in
    let over = x.over || ltb limit (x.appended + 1) in
    record {
      rels = x.rels ++ p ∷ [];
      added =
          if not over && not (contains known p)
          then x.added ++ created_op p e.attr ∷ []
          else x.added;
      appended = x.appended + 1;
      over = over;
    }

-- Past the limit every entry is skipped, and the ignore rules are those of the served root.
unfoldable pub expand_skip : List Pattern → Bytes → Bytes → Bool → Expansion → Bool
expand_skip ignore rel sub is_dir x =
    if x.over then true else not (null ignore) && ignored ignore (rel ++ (b'/' ∷ sub)) is_dir

module _ {W : Type 0} (disk : Disk W) (w : W) (root : Bytes) (ignore : List Pattern) where
  -- An operation of the batch that goes on the wire, resolved against the disk.
  unfoldable pub resolve_op : PlannedOp → Option InvalidationOp
  resolve_op op =
      if is_left_out ignore op
      then none
      else if is_rescan op.kind
      then some (as_planned op)
      else checked op (read_attributes disk (join_relative root op.path) w)

  -- The operations, and the directories that have appeared.
  unfoldable pub resolve_ops : List PlannedOp → List InvalidationOp × List Bytes
  resolve_ops [] = ([], [])
  resolve_ops (op ∷ planned) =
      let (ops, dirs) = resolve_ops planned in
      elim (resolve_op op) [
        | none ↦ (ops, dirs)
        | some out ↦ (out ∷ ops, if is_new_directory op out then out.path ∷ dirs else dirs)
      ]

  module _ (fuel limit : ℕ) (one_file_system : Bool) where
    -- `for (const std::string& rel : dirs)`, where `known` are the paths of the batch and
    -- `last_root` is the directory that was scanned last.
    unfoldable pub expand_dirs : List Bytes → Bytes → List Bytes → Expansion → Option Expansion
    expand_dirs known last_root [] x = some x
    expand_dirs known last_root (rel ∷ dirs) x =
        let covered = expand_dirs known last_root dirs x in
        if not (null last_root) && path_is_under rel last_root
        then covered
        else elim (scan_tree fuel disk w (join_relative root rel) (expand_entry limit known)
            (expand_skip ignore rel) one_file_system (record x { rels = rel ∷ [] })) [
              | none ↦ none
              | some (r, after) ↦
                  if after.over then some after else expand_dirs known rel dirs after
            ]

    unfoldable pub expanded : List InvalidationOp → Expansion → List InvalidationOp
    expanded ops x = if x.over then ops ++ rescan_all ∷ [] else ops ++ x.added

    unfoldable pub append_subtrees : List Bytes → List InvalidationOp → Option (List InvalidationOp)
    append_subtrees dirs ops =
        elim (expand_dirs (map (λ (o : InvalidationOp). o.path) ops) [] (sort bytes_lt dirs)
          (record { rels = []; added = []; appended = 0; over = false })) [
            | none ↦ none
            | some x ↦ some (expanded ops x)
          ]

-- `broadcast_batch`: a chunk takes operations while their sizes stay within the budget, one at least.
unfoldable pub op_bytes : InvalidationOp → ℕ
op_bytes op = length op.path + 32

unfoldable pub chunk_more : ℕ → ℕ → List InvalidationOp → List InvalidationOp × List InvalidationOp
chunk_more budget bytes [] = ([], [])
chunk_more budget bytes (op ∷ ops) =
    let (chunk, rest) = chunk_more budget (bytes + op_bytes op) ops in
    if ltb budget (bytes + op_bytes op) then ([], op ∷ ops) else (op ∷ chunk, rest)

-- `while (first < batch.ops.size())`; every chunk has an operation, so the length is fuel enough.
unfoldable pub chunks : ℕ → ℕ → List InvalidationOp → List (List InvalidationOp)
chunks fuel budget [] = []
chunks zero budget (op ∷ ops) = []
chunks (suc fuel) budget (op ∷ ops) =
    let (chunk, rest) = chunk_more budget (op_bytes op) ops in
    (op ∷ chunk) ∷ chunks fuel budget rest

unfoldable pub chunk_budget : ℕ → ℕ
chunk_budget snapshot_chunk_bytes = min snapshot_chunk_bytes (max_payload / 2)

unfoldable pub chunk_frame : ℕ → List InvalidationOp → Bytes
chunk_frame generation chunk =
    write_frame [] MsgTypes.invalidation 0
      (write_invalidation (record { generation = generation; ops = chunk })) 0

-- The frames that are broadcast for a batch.
unfoldable pub broadcast_batch : ℕ → InvalidationBatch → List Bytes
broadcast_batch snapshot_chunk_bytes batch =
    map (chunk_frame batch.generation)
      (chunks (length batch.ops) (chunk_budget snapshot_chunk_bytes) batch.ops)
