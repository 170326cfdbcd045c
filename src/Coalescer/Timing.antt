-- ===== src/Coalescer/Timing.antt =====
-- `ready` and `deadline`: when the event loop has to wake up for the batch.
use wsldrive.Prelude.{ℕ, ◌≤◌, ◌≡◌, Bool, false, arith, leb, Option, none, some}
use wsldrive.Coalescer.{Options, Coalescer, ready, deadline}
use wsldrive.Coalescer.History.{Reach, Reach-WellFormed}

-- Whether a time has come that may never come.
unfoldable pub due : Option ℕ → ℕ → Bool
due none now = false
due (some d) now = leb d now

due_at :
    (c : Coalescer) (now : ℕ) → c.first ≤ c.last → c.last ≤ now → ready c now ≡ due (deadline c) now
unfolding ready deadline due
due_at c now h k = ground arith

-- In every history, the batch is ready at a time after the last event exactly when its deadline
-- has come.
pub ready-deadline :
    (opts : Options) (c : Coalescer) (now : ℕ)
    → Reach opts c
    → c.last ≤ now
    → ready c now ≡ due (deadline c) now
ready-deadline opts c now r later = due_at c now (Reach-WellFormed r).times later
