-- ===== src/Coalescer/Pending.antt =====
-- The pending map: what `push` does to the entry of its path and to the others.
use wsldrive.Prelude.{
  ℕ, ◌+◌, ◌≡◌, refl, ap, Bool, true, false, List, [], ◌∷◌, Bytes, bytes_eq, bytes_eq_sound,
  bytes_eq_refl, arith, Bool-cases, some, if◌then◌else◌, inl, inr,
}
use wsldrive.Coalescer.{
  FsEventKind, ev_created, ev_modified, ev_removed, renamed_from, renamed_to, overflow, FsEvent,
  Entry, Coalescer, find, put, classify, merge_with, stamp, record_event, is_overflow_event, push,
  Item,
}

-- Byte strings that differ from a third do so whichever of two equal ones is asked.
bytes_eq_other : (p q r : Bytes) → bytes_eq p q ≡ true → bytes_eq p r ≡ bytes_eq q r
bytes_eq_other p q r h = ap (λ x. bytes_eq x r) (bytes_eq_sound p q h)

pub find-put :
    (q p : Bytes) (e : Entry) (es : List Item)
    → find q (put p e es) ≡ (if bytes_eq p q then some e else find q es)
unfolding find put
find-put q p e [] = refl
find-put q p e ((r, d) ∷ es) = elim (Bool-cases (bytes_eq r p)) [
  | inl same ↦ rw (same, bytes_eq_other r p q same) (twice (bytes_eq p q))
  | inr other ↦
      rw (other, find-put q p e es)
        (ground (arith, bytes_eq_sound r q, bytes_eq_sound p q, bytes_eq_refl q, other_sym other))
]
  where
    twice :
        (b : Bool)
        → (if b then some e else find q es)
          ≡ (if b then some e else (if b then some d else find q es))
    twice true = refl
    twice false = refl

    other_sym : bytes_eq r p ≡ false → bytes_eq r q ≡ true → bytes_eq p q ≡ true → ⊥
    other_sym h a b =
        let r_q = bytes_eq_sound r q a in
        let p_q = bytes_eq_sound p q b in let q_q = bytes_eq_refl q in cc

classify_overflow :
    (k : FsEventKind) (cookie : ℕ) (e : Entry)
    → classify k cookie ≡ some e
    → is_overflow_event k ≡ false
unfolding classify is_overflow_event
classify_overflow overflow cookie e h = absurd (cc)
classify_overflow ev_created cookie e h = refl
classify_overflow ev_modified cookie e h = refl
classify_overflow ev_removed cookie e h = refl
classify_overflow renamed_from cookie e h = refl
classify_overflow renamed_to cookie e h = refl

pub push_live :
    (c : Coalescer) (ev : FsEvent) (now : ℕ) (e : Entry)
    → c.is_overflow ≡ false
    → classify ev.kind ev.cookie ≡ some e
    → push c ev now ≡ record_event (stamp c now) ev.path (some e)
unfolding push
push_live c ev now e live h = simp (classify_overflow ev.kind ev.cookie e h, live, h)

-- A push of an event that is no overflow, where none is pending, overwrites the entry of its path
-- by the merged one under the next number, and leaves the entries of the other paths.
pub find-push :
    (c : Coalescer) (ev : FsEvent) (now : ℕ) (q : Bytes) (e : Entry)
    → c.is_overflow ≡ false
    → classify ev.kind ev.cookie ≡ some e
    → find q (push c ev now).pending ≡ (
        if bytes_eq ev.path q
        then some (record (merge_with (find ev.path c.pending) e) { seq = c.seq + 1 })
        else find q c.pending)
find-push c ev now q e live h = rw (push_live c ev now e live h) (recorded c)
  where
    recorded :
        (c : Coalescer)
        → find q (record_event (stamp c now) ev.path (some e)).pending ≡ (
            if bytes_eq ev.path q
            then some (record (merge_with (find ev.path c.pending) e) { seq = c.seq + 1 })
            else find q c.pending)
    recorded c = unfold record_event stamp in find-put q ev.path _ c.pending
