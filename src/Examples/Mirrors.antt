-- ===== src/Examples/Mirrors.antt =====
-- Runs of the mirror and of the back-off between snapshots.
use wsldrive.Prelude.{◌<◌, ◌≡◌, ◌⊎◌, refl, true, false, List, [], ◌∷◌, Bytes, length, arith}
use wsldrive.Prelude.Int.{pos}
use wsldrive.Types.{Attributes, file, upsert, remove, modified, removed, ok}
use wsldrive.Protocol.Invalidations.{InvalidationOp, InvalidationBatch}
use wsldrive.Tree.{MetadataTree, empty_tree}
use wsldrive.Tree.Lookup.{exactly}
use wsldrive.Tree.Snapshot.{load_snapshot, load_loop}
use wsldrive.Client.Cache.{empty_cache}
use wsldrive.Client.Mirror.{
  Mirror, max_snapshot_replay, note_mutation, begin_recording, replay_batches, take_snapshot,
}
use wsldrive.Client.Mirror.Replay.{apply_all, take_snapshot-replays}
use wsldrive.Client.Backoff.{
  InRange, Spaced, Passes, idle, pass, init, start_pass, quieted, earliest, doubled, Passes-InRange,
}

abbrev a : Bytes
a = b'a' ∷ []

abbrev b : Bytes
b = b'b' ∷ []

abbrev file_attr : Attributes
file_attr = record { size = 3; mtime_ns = pos 1; mode = 420; kind = file }

abbrev update : Bytes → InvalidationOp
update p = record { kind = upsert; path = p; attr = file_attr; change = modified; cookie = 0 }

abbrev removal_of : Bytes → InvalidationOp
removal_of p = record { kind = remove; path = p; attr = file_attr; change = removed; cookie = 0 }

abbrev fresh : Mirror
fresh = record {
  tree = empty_tree;
  mode = exactly;
  mutations = [];
  in_flight = false;
  replay = [];
  is_overflow = false;
  cache = empty_cache;
  seen_dirs = [];
  is_requested = false;
  generation = 0;
  batches = 0;
  ops = 0;
}

abbrev arrived : List InvalidationBatch
arrived = record { generation = 7; ops = update a ∷ removal_of b ∷ [] } ∷ []

abbrev reloaded : MetadataTree
reloaded = (load_snapshot (apply_all arrived (begin_recording fresh)).tree []).1

loads : load_snapshot (apply_all arrived (begin_recording fresh)).tree [] ≡ (ok tt, reloaded)
unfolding load_snapshot load_loop
loads = refl

take_snapshot-replays_example :
    ((take_snapshot 5 [] (apply_all arrived (begin_recording fresh))).1.tree
      ≡ replay_batches 5 arrived reloaded)
    ⊎ (((take_snapshot 5 [] (apply_all arrived (begin_recording fresh))).1.is_requested ≡ true)
        × (max_snapshot_replay < length arrived))
take_snapshot-replays_example = take_snapshot-replays 5 [] arrived fresh reloaded loads

-- The mirror has just written to the first file.
abbrev noted : Mirror
noted = note_mutation a 9 fresh

abbrev mixed : InvalidationBatch
mixed = record { generation = 9; ops = removal_of a ∷ update b ∷ [] }

-- A third pass after the pauses of 500 and 1000.
three_passes :
    Passes
      (start_pass 1600 2600 (start_pass 1100 1600 (start_pass 1000 1000 init)))
      (2600 ∷ 1600 ∷ 1000 ∷ [])
unfolding start_pass quieted earliest doubled init
three_passes =
    pass 1600 2600 _ _
      (pass 1100 1600 _ _
        (pass 1000 1000 init [] idle (omega arith) (omega arith) (omega arith) (omega arith))
        (omega arith) (omega arith) (omega arith) (omega arith))
      (omega arith) (omega arith) (omega arith) (omega arith)

Passes-InRange_example :
    InRange (start_pass 1600 2600 (start_pass 1100 1600 (start_pass 1000 1000 init)))
    × Spaced (2600 ∷ 1600 ∷ 1000 ∷ [])
Passes-InRange_example = Passes-InRange _ _ three_passes
