-- ===== src/Server/Retry.antt =====
-- src/agent/server.cpp, `with_share_retry` and `fopen_with_retry`: a call is tried again, with longer
-- and longer pauses, while its failure is one that passes. The pauses do not show in the model.
use wsldrive.Prelude.{
  ℕ, zero, suc, ◌+◌, ◌*◌, ◌<◌, ◌≤◌, ◌≡◌, refl, ap, Bool, true, false, ◌&&◌, leb, le→leb, ◌⊎◌, inl,
  inr, arith, if◌then◌else◌, if_elim,
}

-- `kShareRetryMaxDelayMs`
abbrev pub max_delay : ℕ
max_delay = 128

-- `again` is the test of a result that is worth another try, `op` the call.
module _ {R W : Type 0} (again : R → W → Bool) (op : W → R × W) where
  -- `for (delay_ms = 1; …; delay_ms *= 2)`, where a result is already there.
  unfoldable pub retry_loop : ℕ → ℕ → R × W → R × W
  retry_loop zero delay_ms r = r
  retry_loop (suc fuel) delay_ms r =
      let next = retry_loop fuel (delay_ms * 2) (op r.1) in
      if again r.0 r.1 && leb delay_ms max_delay then next else r

  -- The pauses are 1, 2, 4 and so on to 128: eight at most.
  unfoldable pub with_retry : W → R × W
  with_retry w = retry_loop 8 1 (op w)

-- The last result is final, or there have been `n` calls and no more.
pub record IsRetried {R W : Type 0} (again : R → W → Bool) (calls : W → ℕ) (n before : ℕ)
    (r : R × W) : Type 0 where
  pub some_call : before < calls r.1
  pub few_calls : calls r.1 ≤ before + n
  pub settled : (again r.0 r.1 ≡ false) ⊎ (calls r.1 ≡ before + n)

-- After `n` doublings, each of a pause within the limit, the pause passes it.
abbrev Doubles : ℕ → ℕ → Type 0
Doubles zero delay_ms = max_delay < delay_ms
Doubles (suc n) delay_ms = (delay_ms ≤ max_delay) × Doubles n (delay_ms * 2)

not_again : (b c : Bool) → c ≡ true → (b && c) ≡ false → b ≡ false
not_again true c h e = absurd (cc)
not_again false c h e = refl

module _ {R W : Type 0} (again : R → W → Bool) (op : W → R × W) where
  over : (delay_ms : ℕ) (b : Bool) → max_delay < delay_ms → (b && leb delay_ms max_delay) ≡ false
  over delay_ms b h = ground arith

  -- Past the limit there is no other try.
  retry_loop_over :
      (g delay_ms : ℕ) (r : R × W) → max_delay < delay_ms → retry_loop again op g delay_ms r ≡ r
  unfolding retry_loop
  retry_loop_over zero delay_ms r h = refl
  retry_loop_over (suc g) delay_ms r h = rw (over delay_ms (again r.0 r.1) h) refl

  -- Eight rounds are enough: more fuel makes no difference.
  retry_loop_fuel :
      (f g delay_ms : ℕ) (r : R × W)
      → Doubles f delay_ms
      → f ≤ g
      → retry_loop again op g delay_ms r ≡ retry_loop again op f delay_ms r
  unfolding retry_loop
  retry_loop_fuel zero g delay_ms r h le = retry_loop_over g delay_ms r h
  retry_loop_fuel (suc f) zero delay_ms r h le = absurd (omega arith)
  retry_loop_fuel (suc f) (suc g) delay_ms r h le =
      ap (λ (s : R × W). if again r.0 r.1 && leb delay_ms max_delay then s else r)
        (retry_loop_fuel f g (delay_ms * 2) (op r.1) h.1 (omega arith))

  module _ (calls : W → ℕ) (counted : (w : W) → calls (op w).1 ≡ calls w + 1) where
    retry_loop-IsRetried :
        (fuel before delay_ms : ℕ) (r : R × W)
        → calls r.1 ≡ before + 1
        → Doubles fuel delay_ms
        → IsRetried again calls (fuel + 1) before (retry_loop again op fuel delay_ms r)
    unfolding retry_loop
    retry_loop-IsRetried zero before delay_ms r made pause = record {
      some_call = omega arith;
      few_calls = omega arith;
      settled = inr (omega arith);
    }
    retry_loop-IsRetried (suc fuel) before delay_ms r made pause =
        if_elim (λ (s : R × W). IsRetried again calls (suc fuel + 1) before s)
          (again r.0 r.1 && leb delay_ms max_delay) _ _
          (λ e. longer _ (
            retry_loop-IsRetried fuel (before + 1) (delay_ms * 2) (op r.1)
              (omega (arith, counted r.1)) pause.1))
          (λ e. record {
            some_call = omega arith;
            few_calls = omega arith;
            settled = inl (
                not_again (again r.0 r.1) (leb delay_ms max_delay)
                  (le→leb delay_ms max_delay pause.0) e);
          })
      where
        longer :
            (s : R × W)
            → IsRetried again calls (fuel + 1) (before + 1) s
            → IsRetried again calls (suc fuel + 1) before s
        longer s next = record {
          some_call = omega (arith, next.some_call);
          few_calls = omega (arith, next.few_calls);
          settled = elim next.settled [ inl f ↦ inl f | inr f ↦ inr (omega (arith, f)) ];
        }

    -- A call with retries is made once at least and nine times at most, its last result is one that
    -- is not tried again or there have been nine calls, and rounds beyond the eighth would change
    -- nothing.
    pub with_retry-IsRetried :
        (w : W) (g : ℕ)
        → IsRetried again calls 9 (calls w) (with_retry again op w)
          × (8 ≤ g → retry_loop again op g 1 (op w) ≡ with_retry again op w)
    unfolding with_retry
    with_retry-IsRetried w g = (
      retry_loop-IsRetried 8 (calls w) 1 (op w) (counted w) pauses,
      λ h. retry_loop_fuel 8 g 1 (op w) pauses h,
    )
      where
        pauses : Doubles 8 1
        pauses = ground arith

module _ {R W : Type 0} (again : R → W → Bool) (op : W → R × W) (I : W → Type 0)
    (P : R × W → Type 0) (holds : (w : W) → I w → P (op w))
    (keeps : (r : R × W) → P r → I r.1) where
  retry_loop_holds : (fuel delay_ms : ℕ) (r : R × W) → P r → P (retry_loop again op fuel delay_ms r)
  unfolding retry_loop
  retry_loop_holds zero delay_ms r h = h
  retry_loop_holds (suc fuel) delay_ms r h =
      if_elim P (again r.0 r.1 && leb delay_ms max_delay) _ _
        (λ e. retry_loop_holds fuel (delay_ms * 2) (op r.1) (holds r.1 (keeps r h))) (λ e. h)

  -- What holds of a call holds of it with retries.
  pub with_retry_holds : (w : W) → I w → P (with_retry again op w)
  unfolding with_retry
  with_retry_holds w h = retry_loop_holds 8 1 (op w) (holds w h)
