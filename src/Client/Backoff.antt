-- ===== src/Client/Backoff.antt =====
-- src/agent/client.cpp, `rescan_loop`: when a pass that fetches a new snapshot may start. Times are
-- milliseconds of the steady clock; `last` is 0 before the first pass.
use wsldrive.Prelude.{
  ℕ, ◌+◌, ◌-◌, ◌*◌, ◌≤◌, ◌<◌, ◌≡◌, refl, min, false, List, [], ◌∷◌, ltb, ◌==◌, if◌then◌else◌,
  if_elim, arith,
}

abbrev pub min_interval : ℕ
min_interval = 500

abbrev pub max_interval : ℕ
max_interval = 30000

-- `rs_last_` and `rs_backoff_`
pub record Backoff : Type 0 where
  pub last : ℕ
  pub backoff : ℕ

unfoldable pub init : Backoff
init = record { last = 0; backoff = min_interval }

-- A quiet spell means that the storm is over.
unfoldable pub quieted : ℕ → Backoff → Backoff
quieted now s = if ltb max_interval (now - s.last) then record s { backoff = min_interval } else s

-- The time that the pass waits for, where it asks the clock at `now`.
unfoldable pub earliest : ℕ → Backoff → ℕ
earliest now s = if s.last == 0 then now else s.last + (quieted now s).backoff

unfoldable pub doubled : Backoff → Backoff
doubled s = record s { backoff = min (s.backoff * 2) max_interval }

-- The pass starts at `woken`, when the clock is read again.
unfoldable pub start_pass : ℕ → ℕ → Backoff → Backoff
start_pass now woken s =
    let paced = (if s.last == 0 then s else doubled (quieted now s)) in
    record paced { last = woken }

-- The passes of a client, the latest first. The clock does not go back, and the wait ends no sooner
-- than it was asked for.
pub data Passes : Backoff → List ℕ → Type 0 where
  idle : Passes init []
  pass :
      (now woken : ℕ) (s : Backoff) (starts : List ℕ)
      → Passes s starts
      → s.last ≤ now
      → now ≤ woken
      → 0 < woken
      → earliest now s ≤ woken
      → Passes (start_pass now woken s) (woken ∷ starts)

pub record InRange (s : Backoff) : Type 0 where
  pub at_least : min_interval ≤ s.backoff
  pub at_most : s.backoff ≤ max_interval

quieted-InRange : (now : ℕ) (s : Backoff) → InRange s → InRange (quieted now s)
unfolding quieted
quieted-InRange now s h =
    if_elim InRange (ltb max_interval (now - s.last)) (record s { backoff = min_interval }) s
      (λ _. record { at_least = omega arith; at_most = omega arith }) (λ _. h)

start_pass-InRange : (now woken : ℕ) (s : Backoff) → InRange s → InRange (start_pass now woken s)
unfolding start_pass doubled
start_pass-InRange now woken s h =
    if_elim (λ (p : Backoff). InRange (record p { last = woken })) (s.last == 0) s
      (doubled (quieted now s)) (λ _. record { at_least = h.at_least; at_most = h.at_most })
      (λ _.
        let q = quieted-InRange now s h in
        let low = q.at_least in record { at_least = omega arith; at_most = omega arith })

-- No two passes start within the shortest interval.
abbrev pub Spaced : List ℕ → Type 0
Spaced [] = Unit {0}
Spaced (b ∷ []) = Unit {0}
Spaced (b ∷ a ∷ starts) = (a + min_interval ≤ b) × Spaced (a ∷ starts)

abbrev pub IsLast : Backoff → List ℕ → Type 0
IsLast s [] = s.last ≡ 0
IsLast s (a ∷ starts) = (s.last ≡ a) × (0 < a)

next_gap :
    (now woken : ℕ) (s : Backoff) (starts : List ℕ)
    → InRange s
    → IsLast s starts
    → Spaced starts
    → earliest now s ≤ woken
    → Spaced (woken ∷ starts)
unfolding earliest
next_gap now woken s [] range latest spaced e = tt
next_gap now woken s (a ∷ starts) range latest spaced e = (gap e, spaced)
  where
    started : (s.last == 0) ≡ false
    started = let (same, later) = latest in ground arith

    gap :
        (if s.last == 0 then now else s.last + (quieted now s).backoff) ≤ woken
        → a + min_interval ≤ woken
    gap = rw started (λ h.
        let (same, later) = latest in
        let low = (quieted-InRange now s range).at_least in omega arith)

Passes-IsLast :
    (s : Backoff) (starts : List ℕ) → Passes s starts → InRange s × IsLast s starts × Spaced starts
unfolding init start_pass
Passes-IsLast s starts idle = (record { at_least = omega arith; at_most = omega arith }, refl, tt)
Passes-IsLast s starts (pass now woken d before p _ _ later e) =
    let (range, latest, spaced) = Passes-IsLast d before p in
    (
      start_pass-InRange now woken d range,
      (refl, later),
      next_gap now woken d before range latest spaced e,
    )

-- In every sequence of passes, the back-off is between the two intervals, and consecutive passes start
-- at least the shortest interval apart.
pub Passes-InRange : (s : Backoff) (starts : List ℕ) → Passes s starts → InRange s × Spaced starts
Passes-InRange s starts p = let (range, _, spaced) = Passes-IsLast s starts p in (range, spaced)
