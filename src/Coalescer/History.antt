-- ===== src/Coalescer/History.antt =====
-- The invariant of every history of pushes and takes.
use wsldrive.Prelude.{
  ℕ, ◌≤◌, ◌<◌, ◌≡◌, ◌≢◌, refl, Bool, true, false, not, ◌&&◌, List, [], ◌∷◌, Bytes, All, bytes_eq,
  bytes_eq_sound, arith, ◌==◌, Bool-cases, if_elim, Option, none, some, inl, inr, null,
}
use mathlib.Core.Path.{subst}
use mathlib.Core.Option.{map as map_option}
use wsldrive.Types.{
  InvalidationKind, ChangeKind, unknown, created, modified, removed, moved_from, moved_to,
}
use wsldrive.Coalescer.{
  FsEventKind, ev_created, ev_modified, ev_removed, renamed_from, renamed_to, overflow, FsEvent,
  Entry, Options, Coalescer, init, find, put, PlannedOp, classify, is_upsert, is_modified,
  created_or_moved_to, merge, merge_with, stamp, record_event, is_overflow_event, push, Item,
  is_remove, take,
}

-- What the planner relies on of an entry: `appeared` is set for what was created or moved in,
-- the kind is that of the change, and only a half of a move has a cookie.
unfoldable pub agrees : Entry → Bool
agrees e = elim e.change [
  | created ↦ (is_upsert e.kind && e.appeared) && (e.cookie == 0)
  | moved_to ↦ is_upsert e.kind && e.appeared
  | modified ↦ (is_upsert e.kind && not e.appeared) && (e.cookie == 0)
  | removed ↦ (is_remove e.kind && not e.appeared) && (e.cookie == 0)
  | moved_from ↦ is_remove e.kind && not e.appeared
  | unknown ↦ false
]

abbrev all_agree : Option Entry → Bool
all_agree none = true
all_agree (some e) = agrees e

agrees-classify : (k : FsEventKind) (cookie : ℕ) → all_agree (classify k cookie) ≡ true
unfolding classify agrees is_upsert is_remove
agrees-classify ev_created cookie = refl
agrees-classify ev_modified cookie = refl
agrees-classify ev_removed cookie = refl
agrees-classify renamed_from cookie = refl
agrees-classify renamed_to cookie = refl
agrees-classify overflow cookie = refl

merge_modified :
    (cookie : ℕ) (k : InvalidationKind) (n : ℕ) (b : Bool) (c : ChangeKind) (m : ℕ)
    → agrees (record { kind = k; seq = n; appeared = b; change = c; cookie = m }) ≡ true
    → all_agree (
        map_option
          (merge (record { kind = k; seq = n; appeared = b; change = c; cookie = m }))
          (classify ev_modified cookie))
      ≡ true
unfolding merge classify agrees is_upsert is_remove is_modified created_or_moved_to
merge_modified cookie k n b created m g = ground arith
merge_modified cookie k n b moved_to m g = ground arith
merge_modified cookie k n b modified m g = ground arith
merge_modified cookie k n b removed m g = ground arith
merge_modified cookie k n b moved_from m g = ground arith
merge_modified cookie k n b unknown m g = ground arith

agrees-merge :
    (k : FsEventKind) (cookie : ℕ) (old : Entry)
    → agrees old ≡ true
    → all_agree (map_option (merge old) (classify k cookie)) ≡ true
unfolding merge classify agrees is_upsert is_remove is_modified created_or_moved_to
agrees-merge ev_created cookie old g = refl
agrees-merge ev_modified cookie old g =
    merge_modified cookie old.kind old.seq old.appeared old.change old.cookie g
agrees-merge ev_removed cookie old g = refl
agrees-merge renamed_from cookie old g = refl
agrees-merge renamed_to cookie old g = refl
agrees-merge overflow cookie old g = refl

-- Two pending entries: their paths differ, and so do their sequence numbers.
abbrev pub Apart : Item → Item → Type 0
Apart a b = (bytes_eq a.0 b.0 ≡ false) × (a.1.seq ≢ b.1.seq)

abbrev pub AllApart : List Item → Type 0
AllApart [] = Unit
AllApart (x ∷ xs) = All (Apart x) xs × AllApart xs

All-put :
    (P : Item → Type 0) (p : Bytes) (e : Entry) (es : List Item)
    → P (p, e)
    → All P es
    → All P (put p e es)
unfolding put
All-put P p e [] new h = (new, tt)
All-put P p e ((q, d) ∷ es) new h = elim (Bool-cases (bytes_eq q p)) [
  | inl same ↦ rw same (rw (bytes_eq_sound q p same) new, h.1)
  | inr other ↦ rw other (h.0, All-put P p e es new h.1)
]

All-map : (P Q : Item → Type 0) (es : List Item) → ((it : Item) → P it → Q it) → All P es → All Q es
All-map P Q [] f h = tt
All-map P Q (x ∷ xs) f h = (f x h.0, All-map P Q xs f h.1)

Apart-newer :
    (q : Bytes) (d e : Entry) (es : List Item)
    → All (λ it. it.1.seq < e.seq) es
    → All (Apart (q, d)) es
    → All (Apart (q, e)) es
Apart-newer q d e [] older h = tt
Apart-newer q d e (it ∷ es) older h = ((h.0.0, λ eq. omega arith), Apart-newer q d e es older.1 h.1)

AllApart-put :
    (p : Bytes) (e : Entry) (es : List Item)
    → All (λ it. it.1.seq < e.seq) es
    → AllApart es
    → AllApart (put p e es)
unfolding put
AllApart-put p e [] older h = (tt, tt)
AllApart-put p e ((q, d) ∷ es) older h = elim (Bool-cases (bytes_eq q p)) [
  | inl same ↦ rw same (Apart-newer q d e es older.1 h.0, h.1)
  | inr other ↦ rw other (
    All-put (Apart (q, d)) p e es (other, λ eq. omega arith) h.0,
    AllApart-put p e es older.1 h.1,
  )
]

-- What holds between any two calls.
pub record WellFormed (c : Coalescer) : Type 0 where
  pub entries : All (λ it. (it.1.seq ≤ c.seq) × (agrees it.1 ≡ true)) c.pending
  pub apart : AllApart c.pending
  pub dropped : c.is_overflow ≡ true → c.pending ≡ []
  pub times : c.first ≤ c.last

-- The histories of a coalescer: the clock does not go back between pushes.
pub data Reach (opts : Options) : Coalescer → Type 0 where
  start : Reach opts (init opts)
  pushed :
      {c : Coalescer} (ev : FsEvent) (now : ℕ)
      → Reach opts c
      → c.last ≤ now
      → Reach opts (push c ev now)
  taken : {c : Coalescer} → Reach opts c → Reach opts (take c).1

stamp-WellFormed :
    (c : Coalescer) (now : ℕ) → c.last ≤ now → WellFormed c → WellFormed (stamp c now)
unfolding stamp
stamp-WellFormed c now later w = record {
  entries = w.entries;
  apart = w.apart;
  dropped = w.dropped;
  times = elim (Bool-cases (null c.pending && not c.is_overflow)) [
    | inl e ↦ rw e (omega arith)
    | inr e ↦ rw e (omega (arith, w.times))
  ];
}

find-agrees :
    (p : Bytes) (es : List Item) → All (λ it. agrees it.1 ≡ true) es → all_agree (find p es) ≡ true
unfolding find
find-agrees p [] h = refl
find-agrees p ((q, e) ∷ es) h = elim (Bool-cases (bytes_eq q p)) [
  | inl same ↦ rw same h.0
  | inr other ↦ rw other (find-agrees p es h.1)
]

agrees-merge_with :
    (o : Option Entry) (k : FsEventKind) (cookie : ℕ)
    → all_agree o ≡ true
    → all_agree (map_option (merge_with o) (classify k cookie)) ≡ true
unfolding merge_with
agrees-merge_with none k cookie h =
    subst (λ x. all_agree x ≡ true) (same (classify k cookie)) (agrees-classify k cookie)
  where
    same : (x : Option Entry) → x ≡ map_option (merge_with none) x
    same none = refl
    same (some e) = refl
agrees-merge_with (some old) k cookie h = agrees-merge k cookie old h

record_event-WellFormed :
    (c : Coalescer) (path : Bytes) (o : Option Entry)
    → c.is_overflow ≡ false
    → all_agree (map_option (merge_with (find path c.pending)) o) ≡ true
    → WellFormed c
    → WellFormed (record_event c path o)
unfolding record_event agrees
record_event-WellFormed c path none live h w = w
record_event-WellFormed c path (some e) live h w = record {
  entries =
      All-put _ path _ c.pending (omega arith, h)
        (All-map _ _ c.pending (λ it k. (omega (arith, k.0), k.1)) w.entries);
  apart =
      AllApart-put path _ c.pending (All-map _ _ c.pending (λ it k. omega (arith, k.0)) w.entries)
        w.apart;
  dropped = λ e. absurd (cc);
  times = w.times;
}

take-WellFormed : (c : Coalescer) → WellFormed c → WellFormed (take c).1
unfolding take
take-WellFormed c w =
    if_elim (λ (x : List PlannedOp × Coalescer). WellFormed x.1) c.is_overflow _ _
      (λ e. record { entries = tt; apart = tt; dropped = λ h. refl; times = w.times })
      (λ e.
        if_elim (λ (x : List PlannedOp × Coalescer). WellFormed x.1) (null c.pending) _ _ (λ n. w)
          (λ n. record { entries = tt; apart = tt; dropped = λ h. refl; times = w.times }))

push-WellFormed :
    (c : Coalescer) (ev : FsEvent) (now : ℕ)
    → c.last ≤ now
    → WellFormed c
    → WellFormed (push c ev now)
unfolding push
push-WellFormed c ev now later w =
    let w' = stamp-WellFormed c now later w in
    if_elim WellFormed (is_overflow_event ev.kind) _ _
      (λ e. record { entries = tt; apart = tt; dropped = λ h. refl; times = w'.times })
      (λ e.
        if_elim WellFormed c.is_overflow _ _ (λ o. w')
          (λ o.
            record_event-WellFormed (stamp c now) ev.path (classify ev.kind ev.cookie)
              (unfold stamp in o)
              (unfold stamp in
                agrees-merge_with (find ev.path c.pending) ev.kind ev.cookie
                  (find-agrees ev.path c.pending (All-map _ _ c.pending (λ it k. k.1) w.entries)))
              w'))

-- In every history of pushes and takes whose clock does not go back, entries have paths and numbers
-- that differ and numbers up to the counter, kind and change and cookie of each agree, an overflow
-- leaves no entry, and the first event is not after the last.
pub Reach-WellFormed : {opts : Options} {c : Coalescer} → Reach opts c → WellFormed c
Reach-WellFormed start =
    unfold init in record { entries = tt; apart = tt; dropped = λ e. refl; times = omega arith }
Reach-WellFormed (pushed ev now r later) = push-WellFormed _ ev now later (Reach-WellFormed r)
Reach-WellFormed (taken r) = take-WellFormed _ (Reach-WellFormed r)
