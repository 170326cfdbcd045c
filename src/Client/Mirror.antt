-- ===== src/Client/Mirror.antt =====
-- src/agent/client.cpp, the mirror: `apply_invalidation`, `note_mutation` and what `fetch_snapshot`
-- does with the tree. The hooks get the changes that `apply_invalidation` returns.
pub mod Kept
pub mod Stale
pub mod Replay
use wsldrive.Prelude.{
  ℕ, suc, ◌+◌, Bool, true, false, not, ◌&&◌, ◌||◌, List, [], ◌∷◌, ◌++◌, map, Bytes, bytes_eq,
  length, null, ltb, leb, Option, none, some, if◌then◌else◌,
}
use wsldrive.Types.{
  NodeKind, file, directory, Result, ok, err, InvalidationKind, upsert, remove, rescan, ChangeKind,
  unknown, created, modified, removed, moved_from, is_move,
}
use wsldrive.Paths.{normalize_path, split_parent}
use wsldrive.Coalescer.{PlannedOp, is_source, repair_op, any_half}
use wsldrive.Protocol.Invalidations.{InvalidationOp, InvalidationBatch, read_invalidation}
use wsldrive.Tree.{MetadataTree, node, is_dir}
use wsldrive.Tree.Lookup.{LookupMode, exactly, lookup}
use wsldrive.Tree.Mutate.{upsert_path, remove_path}
use wsldrive.Protocol.Messages.{SnapshotEntry}
use wsldrive.Tree.Snapshot.{load_snapshot}
use wsldrive.Client.Cache.{ReadCache, find_entry, erase_found, remove_link, drop_cached_prefix}

pub record AppliedChange : Type 0 where
  pub change : ChangeKind
  pub path : Bytes
  pub cookie : ℕ
  pub kind : NodeKind
  pub is_rescan : Bool

abbrev pub Mutations : Type 0
Mutations = List (Bytes × ℕ)

-- The tree with what is recorded for it, the caches, and the flag of the rescan thread.
pub record Mirror : Type 0 where
  pub tree : MetadataTree
  pub mode : LookupMode
  pub mutations : Mutations
  pub in_flight : Bool
  pub replay : List InvalidationBatch
  pub is_overflow : Bool
  pub cache : ReadCache
  pub seen_dirs : List Bytes
  pub is_requested : Bool
  pub generation : ℕ
  pub batches : ℕ
  pub ops : ℕ

unfoldable pub find_mutation : Bytes → Mutations → Option ℕ
find_mutation p [] = none
find_mutation p ((q, g) ∷ ms) = if bytes_eq q p then some g else find_mutation p ms

unfoldable pub erase_mutation : Bytes → Mutations → Mutations
erase_mutation p [] = []
erase_mutation p ((q, g) ∷ ms) =
    let rest = erase_mutation p ms in if bytes_eq q p then ms else (q, g) ∷ rest

unfoldable pub note_mutation : Bytes → ℕ → Mirror → Mirror
note_mutation path generation m =
    let kept = (if ltb 65536 (length m.mutations) then [] else m.mutations) in
    record m {
      mutations = (normalize_path path, generation) ∷ erase_mutation (normalize_path path) kept;
    }

-- The variables of a call of `apply_invalidation` that its loop changes.
pub record Sweep : Type 0 where
  pub mirror : Mirror
  pub removed_dirs : List Bytes
  pub applied : List AppliedChange
  pub is_rescan : Bool

-- Created or modified is decided against the mirror.
unfoldable pub change_of : Option ℕ → ChangeKind → ChangeKind
change_of found change =
    if is_move change then change else elim found [ none ↦ created | some id ↦ modified ]

unfoldable pub apply_upsert : InvalidationOp → Sweep → Sweep
apply_upsert op s =
    let m = s.mirror in
    record s {
      mirror = record m { tree = (upsert_path m.tree op.path op.attr).1 };
      applied =
          s.applied
          ++ record {
            change = change_of (lookup m.tree op.path m.mode) op.change;
            path = op.path;
            cookie = op.cookie;
            kind = op.attr.kind;
            is_rescan = false;
          }
            ∷ [];
    }

unfoldable pub removal : ChangeKind → ChangeKind
removal change = if is_source change then moved_from else removed

-- Before the removal: what is told of it. Nothing, where nothing was there, unless it is a move.
unfoldable pub tell_removal : InvalidationOp → Option ℕ → Sweep → Sweep
tell_removal op none s =
    if is_source op.change
    then record s {
      applied =
          s.applied
          ++ record {
            change = moved_from;
            path = op.path;
            cookie = op.cookie;
            kind = file;
            is_rescan = false;
          }
            ∷ [];
    }
    else s
tell_removal op (some id) s =
    let n = node s.mirror.tree.nodes id in
    record s {
      removed_dirs = (if is_dir n then s.removed_dirs ++ op.path ∷ [] else s.removed_dirs);
      applied =
          s.applied
          ++ record {
            change = removal op.change;
            path = op.path;
            cookie = op.cookie;
            kind = n.attr.kind;
            is_rescan = false;
          }
            ∷ [];
    }

unfoldable pub apply_remove : InvalidationOp → Sweep → Sweep
apply_remove op s =
    let m = s.mirror in
    let told = tell_removal op (lookup m.tree op.path m.mode) s in
    record told { mirror = record m { tree = (remove_path m.tree op.path m.mode).1 } }

-- `switch (op.kind)`
unfoldable pub apply_kind : InvalidationKind → InvalidationOp → Sweep → Sweep
apply_kind upsert op s = apply_upsert op s
apply_kind remove op s = apply_remove op s
apply_kind rescan op s = record s { is_rescan = true }

unfoldable pub is_rescan_kind : InvalidationKind → Bool
is_rescan_kind rescan = true
is_rescan_kind _ = false

-- An operation on a path with a noted mutation counts only in a newer batch.
unfoldable pub checked : ℕ → InvalidationOp → Option ℕ → Sweep → Sweep
checked generation op none s = apply_kind op.kind op s
checked generation op (some noted) s =
    let m = s.mirror in
    let caught_up = record s {
      mirror = record m { mutations = erase_mutation op.path m.mutations };
    } in
    if leb generation noted then s else apply_kind op.kind op caught_up

unfoldable pub apply_op : ℕ → InvalidationOp → Sweep → Sweep
apply_op generation op s =
    if is_rescan_kind op.kind
    then apply_kind op.kind op s
    else checked generation op (find_mutation op.path s.mirror.mutations) s

unfoldable pub apply_ops : ℕ → List InvalidationOp → Sweep → Sweep
apply_ops generation [] s = s
apply_ops generation (op ∷ ops) s = apply_ops generation ops (apply_op generation op s)

abbrev pub max_snapshot_replay : ℕ
max_snapshot_replay = 4096

-- A batch that arrives while a snapshot is fetched is kept, up to the cap.
unfoldable pub record_batch : InvalidationBatch → Mirror → Mirror
record_batch batch m =
    if m.in_flight
    then (if ltb (length m.replay) max_snapshot_replay
        then record m { replay = m.replay ++ batch ∷ [] }
        else record m { is_overflow = true })
    else m

-- `repair_move_pairs(applied)`, the template of src/core/coalescer.hpp at this type: it reads a change
-- and its cookie, and writes them.
unfoldable pub as_planned : AppliedChange → PlannedOp
as_planned a = record {
  kind = upsert;
  path = a.path;
  appeared = false;
  change = a.change;
  cookie = a.cookie;
}

unfoldable pub repaired : List AppliedChange → List AppliedChange
repaired applied =
    let ops = map as_planned applied in
    if any_half ops
    then map
        (λ (a : AppliedChange). record a {
          change = (repair_op ops (as_planned a)).change;
          cookie = (repair_op ops (as_planned a)).cookie;
        })
        applied
    else applied

unfoldable pub sweep_dirs : List Bytes → ReadCache → ReadCache
sweep_dirs [] c = c
sweep_dirs (d ∷ ds) c = sweep_dirs ds (drop_cached_prefix d c)

unfoldable pub drop_ops : List InvalidationOp → ReadCache → ReadCache
drop_ops [] c = c
drop_ops (op ∷ ops) c =
    let without = erase_found op.path (find_entry op.path c.entries) c in
    drop_ops ops (record without { links = remove_link op.path without.links })

-- `pf_seen_` is a set: a path is in it once.
unfoldable pub remove_dir : Bytes → List Bytes → List Bytes
remove_dir d [] = []
remove_dir d (q ∷ qs) = let rest = remove_dir d qs in if bytes_eq q d then qs else q ∷ rest

unfoldable pub forget_dirs : List InvalidationOp → List Bytes → List Bytes
forget_dirs [] seen = seen
forget_dirs (op ∷ ops) seen = forget_dirs ops (remove_dir (split_parent op.path).0 seen)

-- What follows the lock on the tree.
unfoldable pub finish_batch : InvalidationBatch → Sweep → Mirror
finish_batch batch s =
    let m = record_batch batch s.mirror in
    let dropped = drop_ops batch.ops (sweep_dirs s.removed_dirs m.cache) in
    record m {
      cache = (if s.is_rescan then record dropped { links = [] } else dropped);
      is_requested = m.is_requested || s.is_rescan;
      seen_dirs = forget_dirs batch.ops m.seen_dirs;
      generation = batch.generation;
      batches = m.batches + 1;
      ops = m.ops + length batch.ops;
    }

unfoldable pub apply_batch : InvalidationBatch → Mirror → List AppliedChange × Mirror
apply_batch batch m =
    let s =
      apply_ops batch.generation batch.ops
        (record { mirror = m; removed_dirs = []; applied = []; is_rescan = false }) in
    (repaired s.applied, finish_batch batch s)

unfoldable pub apply_decoded :
    Result (InvalidationBatch × Bytes) → Mirror → List AppliedChange × Mirror
apply_decoded (err e) m = ([], m)
apply_decoded (ok (batch, rest)) m = apply_batch batch m

unfoldable pub apply_invalidation : Bytes → Mirror → List AppliedChange × Mirror
apply_invalidation payload m = apply_decoded (read_invalidation payload) m

-- `fetch_snapshot`, before its request.
unfoldable pub begin_recording : Mirror → Mirror
begin_recording m = record m { in_flight = true; replay = [] }

-- The end of the call, whatever its way out.
unfoldable pub end_recording : Mirror → Mirror
end_recording m = record m { in_flight = false; replay = []; is_overflow = false }

unfoldable pub replay_kind : InvalidationKind → InvalidationOp → MetadataTree → MetadataTree
replay_kind upsert op t = (upsert_path t op.path op.attr).1
replay_kind remove op t = (remove_path t op.path exactly).1
replay_kind rescan op t = t

unfoldable pub replay_ops : List InvalidationOp → MetadataTree → MetadataTree
replay_ops [] t = t
replay_ops (op ∷ ops) t = replay_ops ops (replay_kind op.kind op t)

unfoldable pub replay_batches : ℕ → List InvalidationBatch → MetadataTree → MetadataTree
replay_batches generation [] t = t
replay_batches generation (b ∷ bs) t =
    replay_batches generation bs (if leb b.generation generation then t else replay_ops b.ops t)

unfoldable pub load_replayed :
    ℕ → Mirror → Result (Unit {0}) × MetadataTree → Result (Unit {0}) × Mirror
load_replayed generation m (err e, t) = (err e, record m { tree = t })
load_replayed generation m (ok u, t) = (
  ok u,
  record m {
    tree = replay_batches generation m.replay t;
    generation = generation;
    is_requested = m.is_requested || m.is_overflow;
  },
)

-- What `fetch_snapshot` does with the entries that have arrived.
unfoldable pub take_snapshot : ℕ → List SnapshotEntry → Mirror → Result (Unit {0}) × Mirror
take_snapshot generation entries m =
    let (r, after) = load_replayed generation m (load_snapshot m.tree entries) in
    (r, end_recording after)
