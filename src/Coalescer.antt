-- ===== src/Coalescer.antt =====
-- src/core/coalescer.hpp and coalescer.cpp: bursts of watcher events become ordered batches.
pub mod Moves
pub mod Pending
pub mod Latest
pub mod History
pub mod Timing
pub mod Sorting
pub mod Batch
pub mod Agreement
use wsldrive.Prelude.{
  ℕ, zero, suc, ◌+◌, ◌-◌, ◌<◌, ◌≤◌, min, Bool, true, false, not, ◌&&◌, ◌||◌, List, [], ◌∷◌, ◌++◌,
  Bytes, bytes_eq, length, map, null, ltb, leb, ◌==◌, Option, none, some, if◌then◌else◌,
}
use wsldrive.Types.{
  InvalidationKind, upsert, remove, rescan, ChangeKind, unknown, created, modified, removed,
  moved_from, moved_to, is_move,
}
use wsldrive.Paths.{path_is_under}

pub data FsEventKind : Type 0 where
  ev_created ev_modified ev_removed renamed_from renamed_to overflow : FsEventKind

pub record FsEvent : Type 0 where
  pub kind : FsEventKind
  pub path : Bytes
  pub cookie : ℕ

pub record PlannedOp : Type 0 where
  pub kind : InvalidationKind
  pub path : Bytes
  pub appeared : Bool
  pub change : ChangeKind
  pub cookie : ℕ

pub record Entry : Type 0 where
  pub kind : InvalidationKind
  pub seq : ℕ
  pub appeared : Bool
  pub change : ChangeKind
  pub cookie : ℕ

-- Times and durations are counts of clock ticks.
pub record Options : Type 0 where
  pub max_pending : ℕ
  pub quiet_period : ℕ
  pub max_latency : ℕ

-- The pending map, as an association list with one entry for a path. `seq` does not wrap: it
-- counts events in 64 bits.
pub record Coalescer : Type 0 where
  pub opts : Options
  pub pending : List (Bytes × Entry)
  pub seq : ℕ
  pub is_overflow : Bool
  pub first : ℕ
  pub last : ℕ

unfoldable pub init : Options → Coalescer
init opts = record { opts = opts; pending = []; seq = 0; is_overflow = false; first = 0; last = 0 }

unfoldable pub find : Bytes → List (Bytes × Entry) → Option Entry
find p [] = none
find p ((q, e) ∷ es) = if bytes_eq q p then some e else find p es

-- Overwrites the entry of the path, or adds one.
unfoldable pub put : Bytes → Entry → List (Bytes × Entry) → List (Bytes × Entry)
put p e [] = (p, e) ∷ []
put p e ((q, d) ∷ es) = if bytes_eq q p then (q, e) ∷ es else (q, d) ∷ put p e es

-- The `switch (ev.kind)`: an entry as if the path were not pending, its number still to be set.
unfoldable pub classify : FsEventKind → ℕ → Option Entry
classify ev_created cookie =
    some (record { kind = upsert; seq = 0; appeared = true; change = created; cookie = 0 })
classify renamed_to cookie =
    some (record { kind = upsert; seq = 0; appeared = true; change = moved_to; cookie = cookie })
classify ev_modified cookie =
    some (record { kind = upsert; seq = 0; appeared = false; change = modified; cookie = 0 })
classify ev_removed cookie =
    some (record { kind = remove; seq = 0; appeared = false; change = removed; cookie = 0 })
classify renamed_from cookie =
    some (record { kind = remove; seq = 0; appeared = false; change = moved_from; cookie = cookie })
classify overflow cookie = none

unfoldable pub is_upsert : InvalidationKind → Bool
is_upsert upsert = true
is_upsert _ = false

unfoldable pub is_modified : ChangeKind → Bool
is_modified modified = true
is_modified _ = false

unfoldable pub created_or_moved_to : ChangeKind → Bool
created_or_moved_to created = true
created_or_moved_to moved_to = true
created_or_moved_to _ = false

-- `still_new` and `keep`, with the pending entry `old`.
unfoldable pub merge : Entry → Entry → Entry
merge old e =
    let keep = is_modified e.change && created_or_moved_to old.change in
    record e {
      appeared = is_upsert e.kind && (e.appeared || old.appeared);
      change = if keep then old.change else e.change;
      cookie = if keep then old.cookie else e.cookie;
    }

unfoldable pub merge_with : Option Entry → Entry → Entry
merge_with none e = e
merge_with (some old) e = merge old e

-- The two assignments at the start of `push`.
unfoldable pub stamp : Coalescer → ℕ → Coalescer
stamp c now = record c {
  first = if null c.pending && not c.is_overflow then now else c.first;
  last = now;
}

unfoldable pub record_event : Coalescer → Bytes → Option Entry → Coalescer
record_event c path none = c
record_event c path (some e) = record c {
  pending = put path (record (merge_with (find path c.pending) e) { seq = c.seq + 1 }) c.pending;
  seq = c.seq + 1;
}

unfoldable pub is_overflow_event : FsEventKind → Bool
is_overflow_event overflow = true
is_overflow_event _ = false

unfoldable pub push : Coalescer → FsEvent → ℕ → Coalescer
push c ev now =
    let c' = stamp c now in
    if is_overflow_event ev.kind
    then record c' { is_overflow = true; pending = [] }
    else if c.is_overflow
    then c'
    else record_event c' ev.path (classify ev.kind ev.cookie)

unfoldable pub ready : Coalescer → ℕ → Bool
ready c now =
    if c.is_overflow
    then true
    else if null c.pending
    then false
    else if leb c.opts.max_pending (length c.pending)
    then true
    else leb c.opts.quiet_period (now - c.last) || leb c.opts.max_latency (now - c.first)

unfoldable pub deadline : Coalescer → Option ℕ
deadline c =
    if c.is_overflow
    then some c.last
    else if null c.pending
    then none
    else if leb c.opts.max_pending (length c.pending)
    then some c.last
    else some (min (c.last + c.opts.quiet_period) (c.first + c.opts.max_latency))

-- `std::string_view::operator<`: bytes compare as unsigned, a prefix is smaller.
unfoldable pub bytes_lt : Bytes → Bytes → Bool
bytes_lt [] [] = false
bytes_lt [] (y ∷ ys) = true
bytes_lt (x ∷ xs) [] = false
bytes_lt (x ∷ xs) (y ∷ ys) = ltb x y || ((x == y) && bytes_lt xs ys)

-- `std::sort` by a comparison of keys that differ pairwise: any sort returns the same list.
module _ {ℓ} {A : Type ℓ} (lt : A → A → Bool) where
  unfoldable pub insert_sorted : A → List A → List A
  insert_sorted x [] = x ∷ []
  insert_sorted x (y ∷ ys) = if lt x y then x ∷ y ∷ ys else y ∷ insert_sorted x ys

  unfoldable pub sort : List A → List A
  sort [] = []
  sort (x ∷ xs) = insert_sorted x (sort xs)

abbrev pub Item : Type 0
Item = Bytes × Entry

unfoldable pub by_path : Item → Item → Bool
by_path a b = bytes_lt a.0 b.0

unfoldable pub by_seq : Item → Item → Bool
by_seq a b = ltb a.1.seq b.1.seq

unfoldable pub is_remove : InvalidationKind → Bool
is_remove remove = true
is_remove _ = false

-- The loop over the items sorted by path. `dir` is the removed directory whose descendants the
-- inner loop is passing over: one that is older than the removal is dropped. The first item that
-- is not below it ends the inner loop, and is looked at by the outer one.
unfoldable pub keep_items : Option Item → List Item → List Item
keep_items dir [] = []
keep_items none (it ∷ its) = it ∷ keep_items (if is_remove it.1.kind then some it else none) its
keep_items (some d) (it ∷ its) =
    let below = keep_items (some d) its in
    let beyond = keep_items (if is_remove it.1.kind then some it else none) its in
    if path_is_under it.0 d.0
    then (if ltb d.1.seq it.1.seq then it ∷ below else below)
    else it ∷ beyond

unfoldable pub to_op : Item → PlannedOp
to_op (path, e) = record {
  kind = e.kind;
  path = path;
  appeared = e.appeared;
  change = e.change;
  cookie = e.cookie;
}

-- The mask of the halves that are seen for a cookie: 1 for a source, 2 for a destination.
unfoldable pub is_source : ChangeKind → Bool
is_source moved_from = true
is_source _ = false

unfoldable pub has_half : Bool → ℕ → List PlannedOp → Bool
has_half source cookie [] = false
has_half source cookie (op ∷ ops) =
    (not (op.cookie == 0)
      && (is_move op.change
          && ((op.cookie == cookie)
              && (if source then is_source op.change else not (is_source op.change)))))
    || has_half source cookie ops

unfoldable pub is_paired : List PlannedOp → PlannedOp → Bool
is_paired ops op =
    not (op.cookie == 0) && (has_half true op.cookie ops && has_half false op.cookie ops)

unfoldable pub degrade : PlannedOp → PlannedOp
degrade op = record op { change = if is_source op.change then removed else created; cookie = 0 }

unfoldable pub repair_op : List PlannedOp → PlannedOp → PlannedOp
repair_op ops op = if is_move op.change && not (is_paired ops op) then degrade op else op

-- `if (halves.empty()) return;`
unfoldable pub any_half : List PlannedOp → Bool
any_half [] = false
any_half (op ∷ ops) = (not (op.cookie == 0) && is_move op.change) || any_half ops

unfoldable pub repair_move_pairs : List PlannedOp → List PlannedOp
repair_move_pairs ops = if any_half ops then map (repair_op ops) ops else ops

unfoldable pub rescan_op : PlannedOp
rescan_op = record { kind = rescan; path = []; appeared = false; change = unknown; cookie = 0 }

unfoldable pub batch : List Item → List PlannedOp
batch items = repair_move_pairs (map to_op (sort by_seq (keep_items none (sort by_path items))))

-- The batch, and the coalescer after it.
unfoldable pub take : Coalescer → List PlannedOp × Coalescer
take c =
    if c.is_overflow
    then (rescan_op ∷ [], record c { is_overflow = false; pending = [] })
    else if null c.pending
    then ([], c)
    else (batch c.pending, record c { pending = [] })
