-- ===== src/Examples/Batches.antt =====
-- Runs of the event coalescer.
use wsldrive.Prelude.{
  List, ℕ, ◌≡◌, refl, true, false, [], ◌∷◌, Bytes, bytes_eq, All, In, arith, inl,
}
use wsldrive.Paths.{path_is_under, starts_with_slash}
use wsldrive.Types.{upsert, remove, created, removed, moved_from, moved_to, is_move}
use wsldrive.Coalescer.{
  FsEvent, ev_created, ev_modified, ev_removed, renamed_to, PlannedOp, Options, Coalescer, init,
  push, ready, deadline, take, find, is_paired, repair_move_pairs, any_half, merge_with, classify,
  stamp, record_event, put, is_overflow_event, is_source, has_half, repair_op, batch, sort,
  insert_sorted, by_path, by_seq, bytes_lt, keep_items, is_remove, to_op,
}
use wsldrive.Coalescer.Latest.{after_all, no_overflow, latest, find-latest}
use wsldrive.Coalescer.History.{Reach, start, pushed, WellFormed, Reach-WellFormed}
use wsldrive.Coalescer.Timing.{due, ready-deadline}
use wsldrive.Coalescer.Batch.{IsPlan, take-IsPlan}
use wsldrive.Coalescer.Agreement.{op_agrees, take-op_agrees}
use wsldrive.Coalescer.Moves.{repair_move_pairs-is_paired}

abbrev opts : Options
opts = record { max_pending = 8; quiet_period = 2; max_latency = 25 }

abbrev dir : Bytes
dir = b'd' ∷ []

abbrev dir_file : Bytes
dir_file = b'd' ∷ b'/' ∷ b'f' ∷ []

abbrev file_created : FsEvent
file_created = record { kind = ev_created; path = dir_file; cookie = 0 }

abbrev dir_removed : FsEvent
dir_removed = record { kind = ev_removed; path = dir; cookie = 0 }

abbrev one_event : Coalescer
one_event = push (init opts) file_created 5

abbrev two_events : Coalescer
two_events = push one_event dir_removed 6

first_last : (init opts).last ≡ 0
unfolding init
first_last = refl

one_last : one_event.last ≡ 5
unfolding push init stamp record_event classify is_overflow_event
one_last = refl

two_last : two_events.last ≡ 6
unfolding push init stamp record_event classify is_overflow_event
two_last = refl

one_live : one_event.is_overflow ≡ false
unfolding push init stamp record_event classify is_overflow_event
one_live = refl

two_live : two_events.is_overflow ≡ false
unfolding push init stamp record_event classify is_overflow_event
two_live = refl

two_reached : Reach opts two_events
two_reached =
    pushed dir_removed 6 (pushed file_created 5 start (omega (arith, first_last)))
      (omega (arith, one_last))

Reach-WellFormed_example : WellFormed two_events
Reach-WellFormed_example = Reach-WellFormed two_reached

take-IsPlan_example : IsPlan two_events.pending (take two_events).0
take-IsPlan_example = take-IsPlan two_events two_live

take-op_agrees_example : All (λ o. op_agrees o ≡ true) (take two_events).0
take-op_agrees_example = take-op_agrees opts two_events two_reached two_live

ready-deadline_example : ready two_events 8 ≡ due (deadline two_events) 8
ready-deadline_example = ready-deadline opts two_events 8 two_reached (omega (arith, two_last))

-- A file that is made, removed, written by a rename and written to, beside another path.
abbrev busy : List (FsEvent × ℕ)
busy =
    (record { kind = ev_modified; path = dir_file; cookie = 0 }, 9)
    ∷ (record { kind = ev_created; path = dir; cookie = 0 }, 8)
    ∷ (record { kind = renamed_to; path = dir_file; cookie = 4 }, 7)
    ∷ (record { kind = ev_removed; path = dir_file; cookie = 0 }, 6)
    ∷ (file_created, 5)
    ∷ []

busy_has_no_overflow : no_overflow busy ≡ true
unfolding is_overflow_event
busy_has_no_overflow = refl

find-latest_example : find dir_file (after_all opts busy).pending ≡ latest dir_file busy
find-latest_example = find-latest opts dir_file busy busy_has_no_overflow

abbrev source : PlannedOp
source = record { kind = remove; path = dir; appeared = false; change = moved_from; cookie = 7 }

abbrev destination : PlannedOp
destination = record {
  kind = upsert;
  path = dir_file;
  appeared = true;
  change = moved_to;
  cookie = 7;
}

abbrev stray : PlannedOp
stray = record { kind = upsert; path = dir_file; appeared = true; change = moved_to; cookie = 9 }

moves_seen : any_half (source ∷ stray ∷ destination ∷ []) ≡ true
unfolding any_half is_move
moves_seen = refl

source_kept : In source (repair_move_pairs (source ∷ stray ∷ destination ∷ []))
unfolding repair_move_pairs repair_op any_half is_move is_paired has_half is_source
source_kept = inl refl

repair_move_pairs-is_paired_example :
    is_paired (repair_move_pairs (source ∷ stray ∷ destination ∷ [])) source ≡ true
repair_move_pairs-is_paired_example =
    repair_move_pairs-is_paired (source ∷ stray ∷ destination ∷ []) moves_seen source source_kept
      (unfold is_move in refl)

abbrev op_removed : PlannedOp
op_removed = record { kind = remove; path = dir; appeared = false; change = removed; cookie = 0 }

-- A removal comes out once, and what was pending below it does not.
removed_dir : (take two_events).0 ≡ op_removed ∷ []
unfolding take push init stamp record_event classify is_overflow_event batch sort insert_sorted
    by_path by_seq bytes_lt keep_items is_remove path_is_under starts_with_slash repair_move_pairs
    any_half is_move to_op put find bytes_eq merge_with
removed_dir = refl

-- "d-" sorts between "d" and "d/f", so what was pending at "d/f" survives the removal of "d".
abbrev sibling_created : FsEvent
sibling_created = record { kind = ev_created; path = b'd' ∷ b'-' ∷ []; cookie = 0 }

survivor :
    (take (push (push (push (init opts) file_created 5) sibling_created 5) dir_removed 6)).0
    ≡ record { kind = upsert; path = dir_file; appeared = true; change = created; cookie = 0 }
      ∷ record {
        kind = upsert;
        path = b'd' ∷ b'-' ∷ [];
        appeared = true;
        change = created;
        cookie = 0;
      }
      ∷ op_removed
      ∷ []
unfolding take push init stamp record_event classify is_overflow_event batch sort insert_sorted
    by_path by_seq bytes_lt keep_items is_remove path_is_under starts_with_slash repair_move_pairs
    any_half is_move to_op put find bytes_eq merge_with
survivor = refl
