-- ===== src/Coalescer/Latest.antt =====
-- What is pending for a path, told from the events alone: a reference for `classify` and `merge`, the
-- latest event first.
use wsldrive.Prelude.{
  ℕ, ◌+◌, ◌≡◌, refl, sym, ap, ◌∙◌, Bool, true, false, not, ◌&&◌, List, [], ◌∷◌, Bytes, bytes_eq,
  bytes_eq_sound, length, Option, none, some, Bool-cases, inl, inr, if◌then◌else◌, arith,
}
use wsldrive.Types.{upsert, remove, ChangeKind, created, modified, removed, moved_from, moved_to}
use wsldrive.Coalescer.{
  FsEventKind, ev_created, ev_modified, ev_removed, renamed_from, renamed_to, overflow, FsEvent,
  Entry, Options, Coalescer, init, find, classify, is_upsert, is_modified, created_or_moved_to,
  merge, merge_with, stamp, record_event, is_overflow_event, push,
}
use wsldrive.Coalescer.Pending.{find-push, push_live}

-- The coalescer after a sequence of events with their times.
abbrev pub after_all : Options → List (FsEvent × ℕ) → Coalescer
after_all opts [] = init opts
after_all opts ((ev, now) ∷ evs) = push (after_all opts evs) ev now

abbrev pub no_overflow : List (FsEvent × ℕ) → Bool
no_overflow [] = true
no_overflow ((ev, now) ∷ evs) = not (is_overflow_event ev.kind) && no_overflow evs

-- What an event of the path makes of what it came into being by: the change and its cookie, if it did
-- since it was last removed.
abbrev pub came_by : FsEventKind → ℕ → Option (ChangeKind × ℕ) → Option (ChangeKind × ℕ)
came_by ev_created cookie before = some (created, 0)
came_by renamed_to cookie before = some (moved_to, cookie)
came_by ev_modified cookie before = before
came_by ev_removed cookie before = none
came_by renamed_from cookie before = none
came_by overflow cookie before = none

abbrev pub origin : Bytes → List (FsEvent × ℕ) → Option (ChangeKind × ℕ)
origin p [] = none
origin p ((ev, now) ∷ evs) =
    if bytes_eq ev.path p then came_by ev.kind ev.cookie (origin p evs) else origin p evs

-- An upsert of a path that came into being, or of one that is modified.
abbrev pub upserted : ℕ → Option (ChangeKind × ℕ) → Entry
upserted seq none = record {
  kind = upsert;
  seq = seq;
  appeared = false;
  change = modified;
  cookie = 0;
}
upserted seq (some (change, cookie)) = record {
  kind = upsert;
  seq = seq;
  appeared = true;
  change = change;
  cookie = cookie;
}

-- The entry that an event asks for.
abbrev pub asked : FsEventKind → ℕ → ℕ → Option (ChangeKind × ℕ) → Option Entry
asked ev_created cookie seq before = some (upserted seq (some (created, 0)))
asked renamed_to cookie seq before = some (upserted seq (some (moved_to, cookie)))
asked ev_modified cookie seq before = some (upserted seq before)
asked ev_removed cookie seq before =
    some (record { kind = remove; seq = seq; appeared = false; change = removed; cookie = 0 })
asked renamed_from cookie seq before =
    some
      (record { kind = remove; seq = seq; appeared = false; change = moved_from; cookie = cookie })
asked overflow cookie seq before = none

-- What the latest event of the path asks for, numbered by that event.
abbrev pub latest : Bytes → List (FsEvent × ℕ) → Option Entry
latest p [] = none
latest p ((ev, now) ∷ evs) =
    if bytes_eq ev.path p
    then asked ev.kind ev.cookie (length evs + 1) (origin p evs)
    else latest p evs

-- A pending entry shows what its path came into being by.
abbrev Shows : Option Entry → Option (ChangeKind × ℕ) → Type 0
Shows none none = Unit {0}
Shows none (some by) = ⊥
Shows (some old) none = (old.appeared ≡ false) × (created_or_moved_to old.change ≡ false)
Shows (some old) (some (change, cookie)) =
    (old.appeared ≡ true)
    × (old.change ≡ change)
    × (old.cookie ≡ cookie)
    × (created_or_moved_to change ≡ true)

asked-Shows :
    (k : FsEventKind) (cookie seq : ℕ) (before : Option (ChangeKind × ℕ)) (o : Option Entry)
    → is_overflow_event k ≡ false
    → Shows o before
    → Shows (asked k cookie seq before) (came_by k cookie before)
unfolding created_or_moved_to is_overflow_event
asked-Shows ev_created cookie seq before o live h = (refl, refl, refl, refl)
asked-Shows renamed_to cookie seq before o live h = (refl, refl, refl, refl)
asked-Shows ev_modified cookie seq none o live h = (refl, refl)
asked-Shows ev_modified cookie seq (some (change, c)) none live h = absurd h
asked-Shows ev_modified cookie seq (some (change, c)) (some old) live (a, b, d, e) =
    (refl, refl, refl, e)
asked-Shows ev_removed cookie seq before o live h = (refl, refl)
asked-Shows renamed_from cookie seq before o live h = (refl, refl)
asked-Shows overflow cookie seq before o live h = absurd (cc)

head_live :
    (ev : FsEvent) (now : ℕ) (evs : List (FsEvent × ℕ))
    → no_overflow ((ev, now) ∷ evs) ≡ true
    → (is_overflow_event ev.kind ≡ false) × (no_overflow evs ≡ true)
head_live ev now evs h = ground arith

latest-Shows :
    (p : Bytes) (evs : List (FsEvent × ℕ))
    → no_overflow evs ≡ true
    → Shows (latest p evs) (origin p evs)
latest-Shows p [] h = tt
latest-Shows p ((ev, now) ∷ evs) h =
    let (live, rest) = head_live ev now evs h in
    elim (Bool-cases (bytes_eq ev.path p)) [
      | inl b ↦ rw b (
          asked-Shows ev.kind ev.cookie _ (origin p evs) (latest p evs) live
            (latest-Shows p evs rest))
      | inr b ↦ rw b (latest-Shows p evs rest)
    ]

-- A modification on a path with a pending entry.
abbrev modified_entry : ℕ → Bool → Bool → ChangeKind → ℕ → Entry
modified_entry seq keep appeared change cookie = record {
  kind = upsert;
  seq = seq;
  appeared = appeared;
  change = if keep then change else modified;
  cookie = if keep then cookie else 0;
}

modified_new :
    (seq : ℕ) (keep appeared : Bool) (change : ChangeKind) (cookie : ℕ)
    → (appeared ≡ false) × (keep ≡ false)
    → some (modified_entry seq keep appeared change cookie) ≡ some (upserted seq none)
modified_new seq keep appeared change cookie (a, k) = rw (a, k) refl

modified_old :
    (seq : ℕ) (keep appeared : Bool) (change : ChangeKind) (cookie : ℕ)
    → (appeared ≡ true) × (keep ≡ true)
    → some (modified_entry seq keep appeared change cookie)
      ≡ some (upserted seq (some (change, cookie)))
modified_old seq keep appeared change cookie (a, k) = rw (a, k) refl

-- The entry for an event on a path with a pending one.
abbrev renumbered : ℕ → Option Entry → Option Entry → Option Entry
renumbered seq o none = none
renumbered seq o (some e) = some (record (merge_with o e) { seq = seq })

-- Merging keeps what the path came into being by.
merged :
    (k : FsEventKind) (cookie seq : ℕ) (o : Option Entry) (before : Option (ChangeKind × ℕ))
    → Shows o before
    → renumbered seq o (classify k cookie) ≡ asked k cookie seq before
unfolding classify merge_with merge is_modified is_upsert
merged ev_created cookie seq none before h = refl
merged ev_created cookie seq (some old) before h = refl
merged renamed_to cookie seq none before h = refl
merged renamed_to cookie seq (some old) before h = refl
merged ev_removed cookie seq none before h = refl
merged ev_removed cookie seq (some old) before h = refl
merged renamed_from cookie seq none before h = refl
merged renamed_from cookie seq (some old) before h = refl
merged overflow cookie seq o before h = refl
merged ev_modified cookie seq none none h = refl
merged ev_modified cookie seq none (some by) h = absurd h
merged ev_modified cookie seq (some old) none h =
    modified_new seq (created_or_moved_to old.change) old.appeared old.change old.cookie h
merged ev_modified cookie seq (some old) (some (change, c)) (a, b, d, e) =
    modified_old seq (created_or_moved_to old.change) old.appeared old.change old.cookie
      (a, ap created_or_moved_to b ∙ e)
    ∙ (ap (λ (x : ChangeKind). some (upserted seq (some (x, old.cookie)))) b
        ∙ ap (λ (x : ℕ). some (upserted seq (some (change, x)))) d)

classified :
    (k : FsEventKind) (cookie : ℕ)
    → is_overflow_event k ≡ false
    → (e : Entry) × (classify k cookie ≡ some e)
unfolding classify is_overflow_event
classified ev_created cookie h = (_, refl)
classified renamed_to cookie h = (_, refl)
classified ev_modified cookie h = (_, refl)
classified ev_removed cookie h = (_, refl)
classified renamed_from cookie h = (_, refl)
classified overflow cookie h = absurd (cc)

-- What `push` keeps where no event is an overflow.
after_all_counts :
    (opts : Options) (evs : List (FsEvent × ℕ))
    → no_overflow evs ≡ true
    → ((after_all opts evs).is_overflow ≡ false) × ((after_all opts evs).seq ≡ length evs)
unfolding init
after_all_counts opts [] h = (refl, refl)
after_all_counts opts ((ev, now) ∷ evs) h =
    let (live, rest) = head_live ev now evs h in
    let (e, c) = classified ev.kind ev.cookie live in
    let (out, counted) = after_all_counts opts evs rest in
    rw (push_live (after_all opts evs) ev now e out c)
      (recorded (after_all opts evs) ev now e out counted)
  where
    recorded :
        (d : Coalescer) (ev : FsEvent) (now : ℕ) (e : Entry)
        → d.is_overflow ≡ false
        → d.seq ≡ length evs
        → ((record_event (stamp d now) ev.path (some e)).is_overflow ≡ false)
          × ((record_event (stamp d now) ev.path (some e)).seq ≡ length ((ev, now) ∷ evs))
    recorded d ev now e out counted = unfold record_event stamp in (out, omega arith)

-- Where no event is an overflow, what is pending for a path is what its latest event asks for, told
-- from the events of the path alone: an upsert has appeared, with the change and cookie of the event
-- that made it, exactly if the path came into being since it was last removed.
pub find-latest :
    (opts : Options) (p : Bytes) (evs : List (FsEvent × ℕ))
    → no_overflow evs ≡ true
    → find p (after_all opts evs).pending ≡ latest p evs
unfolding init find
find-latest opts p [] h = refl
find-latest opts p ((ev, now) ∷ evs) h =
    let (live, rest) = head_live ev now evs h in
    let (e, c) = classified ev.kind ev.cookie live in
    let (out, counted) = after_all_counts opts evs rest in
    find-push (after_all opts evs) ev now p e out c ∙ (elim (Bool-cases (bytes_eq ev.path p)) [
      | inl b ↦ rw b (here (find-latest opts p evs rest) rest e c counted b)
      | inr b ↦ rw b (find-latest opts p evs rest)
    ])
  where
    here :
        find p (after_all opts evs).pending ≡ latest p evs
        → no_overflow evs ≡ true
        → (e : Entry) → classify ev.kind ev.cookie ≡ some e
        → (after_all opts evs).seq ≡ length evs
        → bytes_eq ev.path p ≡ true
        → some (record (merge_with (find ev.path (after_all opts evs).pending) e) {
          seq = (after_all opts evs).seq + 1;
        })
          ≡ asked ev.kind ev.cookie (length evs + 1) (origin p evs)
    here again rest e c counted b =
        ap
          (λ (o : Option Entry).
            some (record (merge_with o e) { seq = (after_all opts evs).seq + 1 }))
          (ap (λ (q : Bytes). find q (after_all opts evs).pending) (bytes_eq_sound ev.path p b)
            ∙ again)
        ∙ (ap (λ (n : ℕ). some (record (merge_with (latest p evs) e) { seq = n + 1 })) counted
            ∙ (ap (renumbered (length evs + 1) (latest p evs)) (sym c)
                ∙ merged ev.kind ev.cookie (length evs + 1) (latest p evs) (origin p evs)
                    (latest-Shows p evs rest)))
