-- ===== src/Scanner/Finite.antt =====
-- The walk over a finite directory tree ends.
use wsldrive.Prelude.{
  ℕ, zero, suc, ◌+◌, ◌≤◌, ◌≡◌, refl, ◌∙◌, Bool, List, [], ◌∷◌, ◌++◌, Bytes, null, Option, none,
  some, Option-cases, List-cases, true, inl, inr, arith, if◌then◌else◌, if_elim,
}
use mathlib.Core.Path.{subst}
use wsldrive.Types.{Attributes}
use wsldrive.Disk.{Disk, Entry, fs_append}
use wsldrive.Protocol.Messages.{SnapshotEntry}
use wsldrive.Tree.{is_directory}
use wsldrive.Scanner.{
  Waiting, Walk, attributes_from, is_other, other_device, descend, report, visit_attributes,
  visit_all, visit_directory, scan_loop,
}

abbrev pub total : (Bytes → ℕ) → Bytes → List (Bytes × Entry) → ℕ
total weight p [] = 0
total weight p ((name, e) ∷ entries) = weight (fs_append p name) + total weight p entries

-- A weight of paths that is more for a directory than for its entries together. One exists where
-- the tree is finite: the number of entries at and below a path.
pub record IsFinite {W : Type 0} (disk : Disk W) (w : W) (weight : Bytes → ℕ) : Type 0 where
  pub positive : (p : Bytes) → 1 ≤ weight p
  pub shrinks :
      (p : Bytes) (entries : List (Bytes × Entry))
      → disk.listing p w ≡ some entries
      → total weight p entries + 1 ≤ weight p

abbrev pub queued : (Bytes → ℕ) → List Waiting → ℕ
queued weight [] = 0
queued weight (d ∷ queue) = weight d.path + queued weight queue

queued-append :
    (weight : Bytes → ℕ) (xs ys : List Waiting)
    → queued weight (xs ++ ys) ≡ queued weight xs + queued weight ys
queued-append weight [] ys = omega arith
queued-append weight (x ∷ xs) ys = omega (arith, queued-append weight xs ys)

module _ {W A : Type 0} (disk : Disk W) (w : W) (on_entry : SnapshotEntry → A → A)
    (skip : Bytes → Bool → A → Bool) (root_dev : Option ℕ) where
  pub scan_loop_round :
      (fuel : ℕ) (k : Walk A) (dir : Waiting) (queue : List Waiting)
      → k.queue ≡ dir ∷ queue
      → scan_loop disk w on_entry skip root_dev (suc fuel) k
        ≡ scan_loop disk w on_entry skip root_dev fuel (
            visit_directory disk w on_entry skip root_dev dir
              (disk.listing dir.path w)
              (record k { queue = queue }))
  unfolding scan_loop
  scan_loop_round fuel k dir queue e = rw e refl

  pub scan_loop_stuck :
      (k : Walk A) (dir : Waiting) (queue : List Waiting)
      → k.queue ≡ dir ∷ queue
      → scan_loop disk w on_entry skip root_dev zero k ≡ none
  unfolding scan_loop
  scan_loop_stuck k dir queue e = rw e refl

  pub scan_loop_done :
      (fuel : ℕ) (k : Walk A)
      → k.queue ≡ []
      → scan_loop disk w on_entry skip root_dev fuel k ≡ some k
  unfolding scan_loop
  scan_loop_done zero k e = rw e refl
  scan_loop_done (suc fuel) k e = rw e refl

module _ {W A : Type 0} (disk : Disk W) (w : W) (on_entry : SnapshotEntry → A → A)
    (skip : Bytes → Bool → A → Bool) (root_dev : Option ℕ) (weight : Bytes → ℕ) where
  descend-queued :
      (path rel : Bytes) (k : Walk A)
      → queued weight (descend disk w on_entry skip root_dev path rel k).queue
        ≤ queued weight k.queue + weight path
  unfolding descend
  descend-queued path rel k =
      if_elim (λ (r : Walk A). queued weight r.queue ≤ queued weight k.queue + weight path)
        (other_device root_dev (disk.device path w)) _ _ (λ e. omega arith)
        (λ e. omega (
          arith,
          queued-append weight k.queue
              (record { path = path; rel = rel; index = k.next_index } ∷ []),
        ))

  report-queued :
      (dir : Waiting) (name rel : Bytes) (a : Attributes) (k : Walk A)
      → queued weight (report disk w on_entry skip root_dev dir name rel a k).queue
        ≤ queued weight k.queue + weight (fs_append dir.path name)
  unfolding report
  report-queued dir name rel a k =
      if_elim
        (λ (r : Walk A).
          queued weight r.queue ≤ queued weight k.queue + weight (fs_append dir.path name))
        (is_directory a.kind) _ _ (λ e. descend-queued (fs_append dir.path name) rel _)
        (λ e. omega arith)

  visit_attributes-queued :
      (dir : Waiting) (name : Bytes) (o : Option Attributes) (k : Walk A)
      → queued weight (visit_attributes disk w on_entry skip root_dev dir name o k).queue
        ≤ queued weight k.queue + weight (fs_append dir.path name)
  unfolding visit_attributes
  visit_attributes-queued dir name none k = omega arith
  visit_attributes-queued dir name (some a) k =
      if_elim
        (λ (r : Walk A).
          queued weight r.queue ≤ queued weight k.queue + weight (fs_append dir.path name))
        (is_other a.kind) _ _ (λ e. omega arith)
        (λ e.
          if_elim
            (λ (r : Walk A).
              queued weight r.queue ≤ queued weight k.queue + weight (fs_append dir.path name))
            (skip (if null dir.rel then name else dir.rel ++ (b'/' ∷ name)) (is_directory a.kind)
              k.seen)
            _ _ (λ f. omega arith) (λ f. report-queued dir name _ a k))

  visit_all-queued :
      (dir : Waiting) (entries : List (Bytes × Entry)) (k : Walk A)
      → queued weight (visit_all disk w on_entry skip root_dev dir entries k).queue
        ≤ queued weight k.queue + total weight dir.path entries
  unfolding visit_all
  visit_all-queued dir [] k = omega arith
  visit_all-queued dir ((name, e) ∷ entries) k = omega (
    arith,
    visit_all-queued dir entries
        (visit_attributes disk w on_entry skip root_dev dir name (attributes_from e) k),
    visit_attributes-queued dir name (attributes_from e) k,
  )

  -- A round takes more weight off the queue than it adds.
  visit_directory-queued :
      IsFinite disk w weight
      → (dir : Waiting) (k : Walk A)
      → queued weight
            (visit_directory disk w on_entry skip root_dev dir (disk.listing dir.path w) k).queue
          + 1
        ≤ queued weight k.queue + weight dir.path
  visit_directory-queued fin dir k = elim (Option-cases (disk.listing dir.path w)) [
    | inl e ↦ rw e (unfold visit_directory in omega (arith, fin.positive dir.path))
    | inr (entries, e) ↦ rw e (
        unfold visit_directory in
        omega (arith, visit_all-queued dir entries k, fin.shrinks dir.path entries e))
  ]

  -- On a finite tree the walk ends within as many rounds as the weight of what waits.
  pub scan_loop_ends :
      IsFinite disk w weight
      → (fuel : ℕ) (k : Walk A) → queued weight k.queue ≤ fuel
      → (r : Walk A) × (scan_loop disk w on_entry skip root_dev fuel k ≡ some r)
  unfolding scan_loop
  scan_loop_ends fin zero k enough = (k, rw (nothing k.queue enough) refl)
    where
      nothing : (queue : List Waiting) → queued weight queue ≤ 0 → null queue ≡ true
      nothing [] h = refl
      nothing (d ∷ queue) h = absurd (omega (arith, fin.positive d.path))
  scan_loop_ends fin (suc fuel) k enough = elim (List-cases k.queue) [
    | inl e ↦ (k, rw e refl)
    | inr (dir, queue, e) ↦
        let left = record k { queue = queue } in
        let (r, h) =
          scan_loop_ends fin fuel
            (visit_directory disk w on_entry skip root_dev dir (disk.listing dir.path w) left)
            (omega
              (arith, visit_directory-queued fin dir left, taken k.queue dir queue e enough)) in
        (r, scan_loop_round disk w on_entry skip root_dev fuel k dir queue e ∙ h)
  ]
    where
      taken :
          (waiting : List Waiting) (dir : Waiting) (queue : List Waiting)
          → waiting ≡ dir ∷ queue
          → queued weight waiting ≤ suc fuel
          → queued weight queue + weight dir.path ≤ suc fuel
      taken waiting dir queue e h =
          let k : queued weight (dir ∷ queue) ≤ suc fuel =
            subst (λ q. queued weight q ≤ suc fuel) e h in
          omega arith
