-- ===== src/Client/Mirror/Replay.antt =====
-- A snapshot that is fetched while batches arrive.
use wsldrive.Prelude.{
  ℕ, ◌+◌, ◌<◌, ◌≡◌, ◌⊎◌, refl, ap, ◌∙◌, true, false, ◌||◌, ||_right, List, [], ◌∷◌, ◌++◌,
  append_assoc, append-nil, length-append, length, ltb, inl, inr, if◌then◌else◌, if_elim, arith,
}
use mathlib.Core.Path.{subst}
use wsldrive.Types.{ok}
use wsldrive.Protocol.Messages.{SnapshotEntry}
use wsldrive.Protocol.Invalidations.{InvalidationBatch}
use wsldrive.Tree.{MetadataTree}
use wsldrive.Tree.Snapshot.{load_snapshot}
use wsldrive.Client.Mirror.{
  Mirror, Sweep, max_snapshot_replay, record_batch, apply_ops, finish_batch, apply_batch,
  begin_recording, end_recording, replay_batches, load_replayed, take_snapshot,
}
use wsldrive.Client.Mirror.Kept.{IsRecorded, apply_ops-IsRecorded}

abbrev pub apply_all : List InvalidationBatch → Mirror → Mirror
apply_all [] m = m
apply_all (b ∷ bs) m = apply_all bs (apply_batch b m).1

-- All that has arrived since the recording began is kept, or the overflow is noted.
record IsKept (bs : List InvalidationBatch) (m : Mirror) : Type 0 where
  flies : m.in_flight ≡ true
  kept : (m.replay ≡ bs) ⊎ ((m.is_overflow ≡ true) × (max_snapshot_replay < length bs))

one_more :
    (bs : List InvalidationBatch) (b : InvalidationBatch) → length (bs ++ b ∷ []) ≡ length bs + 1
one_more bs b = length-append bs (b ∷ [])

record_batch-IsKept :
    (b : InvalidationBatch) (bs : List InvalidationBatch) (m : Mirror)
    → IsKept bs m
    → IsKept (bs ++ b ∷ []) (record_batch b m)
unfolding record_batch
record_batch-IsKept b bs m h =
    if_elim (IsKept (bs ++ b ∷ [])) m.in_flight
      (if ltb (length m.replay) max_snapshot_replay
        then record m { replay = m.replay ++ b ∷ [] }
        else record m { is_overflow = true })
      m
      (λ _.
        if_elim (IsKept (bs ++ b ∷ [])) (ltb (length m.replay) max_snapshot_replay)
          (record m { replay = m.replay ++ b ∷ [] }) (record m { is_overflow = true })
          (λ room. record { flies = h.flies; kept = with_room room h.kept })
          (λ full. record { flies = h.flies; kept = inr (refl, too_many full h.kept) }))
      (λ idle. absurd (let flies = h.flies in cc))
  where
    longer : max_snapshot_replay < length bs → max_snapshot_replay < length (bs ++ b ∷ [])
    longer n = let len = one_more bs b in omega arith

    with_room :
        ltb (length m.replay) max_snapshot_replay ≡ true
        → (m.replay ≡ bs) ⊎ ((m.is_overflow ≡ true) × (max_snapshot_replay < length bs))
        → (m.replay ++ b ∷ [] ≡ bs ++ b ∷ [])
          ⊎ ((m.is_overflow ≡ true) × (max_snapshot_replay < length (bs ++ b ∷ [])))
    with_room room (inl e) = inl (ap (λ rs. rs ++ b ∷ []) e)
    with_room room (inr (o, n)) = inr (o, longer n)

    too_many :
        ltb (length m.replay) max_snapshot_replay ≡ false
        → (m.replay ≡ bs) ⊎ ((m.is_overflow ≡ true) × (max_snapshot_replay < length bs))
        → max_snapshot_replay < length (bs ++ b ∷ [])
    too_many full (inl e) =
        let len = one_more bs b in
        let same : length m.replay ≡ length bs = ap length e in ground arith
    too_many full (inr (o, n)) = longer n

recorded-IsKept :
    (bs : List InvalidationBatch) (m n : Mirror) → IsRecorded m n → IsKept bs m → IsKept bs n
recorded-IsKept bs m n r h = record {
  flies = r.same_flight ∙ h.flies;
  kept = rw (r.same_replay, r.same_overflow) h.kept;
}

apply_batch-IsKept :
    (b : InvalidationBatch) (bs : List InvalidationBatch) (m : Mirror)
    → IsKept bs m
    → IsKept (bs ++ b ∷ []) (apply_batch b m).1
unfolding apply_batch finish_batch
apply_batch-IsKept b bs m h =
    let s : Sweep =
      apply_ops b.generation b.ops
        (record { mirror = m; removed_dirs = []; applied = []; is_rescan = false }) in
    let k =
      record_batch-IsKept b bs s.mirror
        (recorded-IsKept bs m s.mirror (apply_ops-IsRecorded b.generation b.ops _) h) in
    record { flies = k.flies; kept = k.kept }

apply_all-IsKept :
    (done bs : List InvalidationBatch) (m : Mirror)
    → IsKept done m
    → IsKept (done ++ bs) (apply_all bs m)
apply_all-IsKept done [] m h = rw (append-nil done) h
apply_all-IsKept done (b ∷ bs) m h =
    subst (λ (all : List InvalidationBatch). IsKept all (apply_all (b ∷ bs) m))
      (append_assoc done (b ∷ []) bs)
      (apply_all-IsKept (done ++ b ∷ []) bs (apply_batch b m).1 (apply_batch-IsKept b done m h))

-- A snapshot that loads is followed by every newer batch that has arrived since the fetch began, or
-- more than the cap have arrived and another snapshot is asked for.
pub take_snapshot-replays :
    (generation : ℕ) (entries : List SnapshotEntry) (bs : List InvalidationBatch) (m : Mirror)
    (t : MetadataTree)
    → load_snapshot (apply_all bs (begin_recording m)).tree entries ≡ (ok tt, t)
    → ((take_snapshot generation entries (apply_all bs (begin_recording m))).1.tree
        ≡ replay_batches generation bs t)
      ⊎ (((take_snapshot generation entries (apply_all bs (begin_recording m))).1.is_requested
            ≡ true)
          × (max_snapshot_replay < length bs))
unfolding take_snapshot load_replayed end_recording begin_recording
take_snapshot-replays generation entries bs m t h = rw h (
    told
      (apply_all-IsKept [] bs (begin_recording m) (record { flies = refl; kept = inl refl })).kept)
  where
    told :
        ((apply_all bs (begin_recording m)).replay ≡ bs)
          ⊎ (((apply_all bs (begin_recording m)).is_overflow ≡ true)
              × (max_snapshot_replay < length bs))
        → (replay_batches generation (apply_all bs (begin_recording m)).replay t
            ≡ replay_batches generation bs t)
          ⊎ ((((apply_all bs (begin_recording m)).is_requested
                  || (apply_all bs (begin_recording m)).is_overflow)
                ≡ true)
              × (max_snapshot_replay < length bs))
    told (inl e) = inl (ap (λ rs. replay_batches generation rs t) e)
    told (inr (o, n)) = inr (||_right (apply_all bs (begin_recording m)).is_requested _ o, n)
