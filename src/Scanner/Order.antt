-- ===== src/Scanner/Order.antt =====
-- The entries of a walk are in the order that `MetadataTree::load_snapshot` expects.
use wsldrive.Prelude.{
  ℕ, zero, suc, ◌+◌, ◌<◌, ◌≤◌, ◌≡◌, refl, sym, ap, ◌∙◌, Bool, true, List, [], ◌∷◌, ◌++◌, Bytes,
  length, length-append, null, List-cases, inl, inr, le→ltb, All, All-append, Option, none, some,
  arith, if◌then◌else◌, if_elim,
}
use mathlib.Core.Path.{subst}
use wsldrive.Types.{Attributes}
use wsldrive.Disk.{Disk, Entry, fs_append}
use wsldrive.Protocol.Messages.{SnapshotEntry}
use wsldrive.Tree.{is_directory}
use wsldrive.Tree.Counts.{parents_precede}
use wsldrive.Scanner.Finite.{scan_loop_round, scan_loop_stuck, scan_loop_done}
use wsldrive.Scanner.{
  Waiting, Walk, attributes_from, is_other, other_device, skip_one, count_kind, descend, report,
  visit_attributes, visit_all, visit_directory, scan_loop,
}

-- The consumer that keeps the entries.
abbrev pub collect : SnapshotEntry → List SnapshotEntry → List SnapshotEntry
collect e seen = seen ++ e ∷ []

abbrev pub Before : ℕ → Waiting → Type 0
Before n d = d.index < n

parents_precede-append :
    (k : ℕ) (xs : List SnapshotEntry) (e : SnapshotEntry)
    → parents_precede k xs ≡ true
    → e.parent ≤ k + length xs
    → parents_precede k (xs ++ e ∷ []) ≡ true
unfolding parents_precede
parents_precede-append k [] e h le = rw (le→ltb k e.parent (omega arith)) refl
parents_precede-append k (x ∷ xs) e h le = ground (arith, parents_precede-append (k + 1) xs e)

Before-mono : (m n : ℕ) (queue : List Waiting) → m ≤ n → All (Before m) queue → All (Before n) queue
Before-mono m n [] h k = tt
Before-mono m n (d ∷ queue) h k = (omega (arith, k.0), Before-mono m n queue h k.1)

-- The entries so far are numbered from 1, in the order in which they were reported, and what waits
-- has been reported or is the root.
pub record IsOrdered (k : Walk (List SnapshotEntry)) : Type 0 where
  pub numbered : k.next_index ≡ length k.seen + 1
  pub ordered : parents_precede 0 k.seen ≡ true
  pub known : All (Before k.next_index) k.queue

module _ {W : Type 0} (disk : Disk W) (w : W) (skip : Bytes → Bool → List SnapshotEntry → Bool)
    (root_dev : Option ℕ) where
  -- A reported entry gets the index that its directory waits under.
  record IsTold (n : ℕ) (k : Walk (List SnapshotEntry)) : Type 0 where
    next : k.next_index ≡ n
    numbered : length k.seen ≡ n
    ordered : parents_precede 0 k.seen ≡ true
    known : All (Before (n + 1)) k.queue

  descend-IsTold :
      (n : ℕ) (path rel : Bytes) (k : Walk (List SnapshotEntry))
      → IsTold n k
      → IsTold n (descend disk w collect skip root_dev path rel k)
  unfolding descend
  descend-IsTold n path rel k h =
      if_elim (λ (r : Walk (List SnapshotEntry)). IsTold n r)
        (other_device root_dev (disk.device path w)) _ _
        (λ e. record { next = h.next; numbered = h.numbered; ordered = h.ordered; known = h.known })
        (λ e. record {
          next = h.next;
          numbered = h.numbered;
          ordered = h.ordered;
          known = All-append (Before (n + 1)) k.queue _ h.known (omega (arith, h.next), tt);
        })

  told_next :
      (n : ℕ) (k : Walk (List SnapshotEntry))
      → IsTold n k
      → IsOrdered (record k { next_index = k.next_index + 1 })
  told_next n k h = record {
    numbered = omega (arith, h.next, h.numbered);
    ordered = h.ordered;
    known = Before-mono (n + 1) (k.next_index + 1) k.queue (omega (arith, h.next)) h.known;
  }

  report-IsOrdered :
      (dir : Waiting) (name rel : Bytes) (a : Attributes) (k : Walk (List SnapshotEntry))
      → IsOrdered k
      → dir.index < k.next_index
      → IsOrdered (report disk w collect skip root_dev dir name rel a k)
  unfolding report
  report-IsOrdered dir name rel a k h before = told_next k.next_index _ (
      if_elim (λ (r : Walk (List SnapshotEntry)). IsTold k.next_index r) (is_directory a.kind) _ _
        (λ e. descend-IsTold k.next_index (fs_append dir.path name) rel _ told) (λ e. told))
    where
      told : IsTold k.next_index (record k {
        seen = collect (record { parent = dir.index; name = name; attr = a }) k.seen;
        stats = count_kind a.kind k.stats;
      })
      told = record {
        next = refl;
        numbered = omega (
          arith,
          length-append k.seen (record { parent = dir.index; name = name; attr = a } ∷ []),
          h.numbered,
        );
        ordered =
            parents_precede-append 0 k.seen (record { parent = dir.index; name = name; attr = a })
              h.ordered (omega (arith, h.numbered));
        known = Before-mono k.next_index (k.next_index + 1) k.queue (omega arith) h.known;
      }

  -- A walk that goes on in order from `n`.
  abbrev From : ℕ → Walk (List SnapshotEntry) → Type 0
  From n k = IsOrdered k × (n ≤ k.next_index)

  descend-next :
      (path rel : Bytes) (k : Walk (List SnapshotEntry))
      → (descend disk w collect skip root_dev path rel k).next_index ≡ k.next_index
  unfolding descend
  descend-next path rel k =
      if_elim (λ (r : Walk (List SnapshotEntry)). r.next_index ≡ k.next_index)
        (other_device root_dev (disk.device path w)) _ _ (λ e. refl) (λ e. refl)

  report-next :
      (dir : Waiting) (name rel : Bytes) (a : Attributes) (k : Walk (List SnapshotEntry))
      → (report disk w collect skip root_dev dir name rel a k).next_index ≡ k.next_index + 1
  unfolding report
  report-next dir name rel a k =
      if_elim (λ (r : Walk (List SnapshotEntry)). r.next_index + 1 ≡ k.next_index + 1)
        (is_directory a.kind) _ _
        (λ e. ap (λ (n : ℕ). n + 1) (descend-next (fs_append dir.path name) rel _)) (λ e. refl)

  report-From :
      (n : ℕ) (dir : Waiting) (name rel : Bytes) (a : Attributes) (k : Walk (List SnapshotEntry))
      → From n k
      → dir.index < n
      → From n (report disk w collect skip root_dev dir name rel a k)
  report-From n dir name rel a k h before = (
    report-IsOrdered dir name rel a k h.0 (omega (arith, h.1)),
    omega (arith, h.1, report-next dir name rel a k),
  )

  skipped-From :
      (n : ℕ) (k : Walk (List SnapshotEntry))
      → From n k
      → From n (record k { stats = skip_one k.stats })
  skipped-From n k h =
      (record { numbered = h.0.numbered; ordered = h.0.ordered; known = h.0.known }, h.1)

  visit_attributes-From :
      (n : ℕ) (dir : Waiting) (name : Bytes) (o : Option Attributes) (k : Walk (List SnapshotEntry))
      → From n k
      → dir.index < n
      → From n (visit_attributes disk w collect skip root_dev dir name o k)
  unfolding visit_attributes
  visit_attributes-From n dir name none k h before = skipped-From n k h
  visit_attributes-From n dir name (some a) k h before =
      if_elim (λ (r : Walk (List SnapshotEntry)). From n r) (is_other a.kind) _ _
        (λ e. skipped-From n k h)
        (λ e.
          if_elim (λ (r : Walk (List SnapshotEntry)). From n r)
            (skip (if null dir.rel then name else dir.rel ++ (b'/' ∷ name)) (is_directory a.kind)
              k.seen)
            _ _ (λ f. skipped-From n k h) (λ f. report-From n dir name _ a k h before))

  visit_all-From :
      (n : ℕ) (dir : Waiting) (entries : List (Bytes × Entry)) (k : Walk (List SnapshotEntry))
      → From n k
      → dir.index < n
      → From n (visit_all disk w collect skip root_dev dir entries k)
  unfolding visit_all
  visit_all-From n dir [] k h before = h
  visit_all-From n dir ((name, e) ∷ entries) k h before =
      visit_all-From n dir entries _
        (visit_attributes-From n dir name (attributes_from e) k h before) before

  visit_directory-IsOrdered :
      (dir : Waiting) (o : Option (List (Bytes × Entry))) (k : Walk (List SnapshotEntry))
      → IsOrdered k
      → dir.index < k.next_index
      → IsOrdered (visit_directory disk w collect skip root_dev dir o k)
  unfolding visit_directory
  visit_directory-IsOrdered dir none k h before = (skipped-From k.next_index k (h, omega arith)).0
  visit_directory-IsOrdered dir (some entries) k h before =
      (visit_all-From k.next_index dir entries k (h, omega arith) before).0

  ended :
      (k r : Walk (List SnapshotEntry)) (o : Option (Walk (List SnapshotEntry)))
      → IsOrdered k
      → o ≡ some k
      → o ≡ some r
      → IsOrdered r
  ended k r o h e f = let same : k ≡ r = cc in subst (λ x. IsOrdered x) same h

  next_known :
      (k : Walk (List SnapshotEntry)) (dir : Waiting) (queue : List Waiting)
      → IsOrdered k
      → k.queue ≡ dir ∷ queue
      → (dir.index < k.next_index) × IsOrdered (record k { queue = queue })
  next_known k dir queue h e =
      let known : All (Before k.next_index) (dir ∷ queue) =
        subst (All (Before k.next_index)) e h.known in
      (known.0, record { numbered = h.numbered; ordered = h.ordered; known = known.1 })

  -- Every walk that starts in order stays so.
  pub scan_loop-IsOrdered :
      (fuel : ℕ) (k r : Walk (List SnapshotEntry))
      → IsOrdered k
      → scan_loop disk w collect skip root_dev fuel k ≡ some r
      → IsOrdered r
  scan_loop-IsOrdered zero k r h e = elim (List-cases k.queue) [
    | inl q ↦ ended k r _ h (scan_loop_done disk w collect skip root_dev zero k q) e
    | inr (dir, queue, q) ↦
        let out = scan_loop_stuck disk w collect skip root_dev k dir queue q in absurd (cc)
  ]
  scan_loop-IsOrdered (suc fuel) k r h e = elim (List-cases k.queue) [
    | inl q ↦ ended k r _ h (scan_loop_done disk w collect skip root_dev (suc fuel) k q) e
    | inr (dir, queue, q) ↦
        let (before, left) = next_known k dir queue h q in
        scan_loop-IsOrdered fuel _ r
          (visit_directory-IsOrdered dir (disk.listing dir.path w) (record k { queue = queue }) left
            before)
          (sym (scan_loop_round disk w collect skip root_dev fuel k dir queue q) ∙ e)
  ]
