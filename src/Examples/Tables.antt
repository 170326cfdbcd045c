-- ===== src/Examples/Tables.antt =====
-- Runs of the hashes, the tokens and the string pool.
use wsldrive.Prelude.{ℕ, zero, suc, ◌≡◌, refl, true, [], ◌∷◌, Bytes, IsByte, All, arith, some}
use wsldrive.Auth.{to_string, decimal_loop}
use wsldrive.Auth.Transcript.{transcript_inj}
use wsldrive.StringPool.{StringPool, empty_pool, intern, find}
use wsldrive.StringPool.Laws.{IsPool, IsInterned, empty_pool-IsPool, intern-IsInterned}

to_string_1024 : to_string 1024 ≡ b'1' ∷ b'0' ∷ b'2' ∷ b'4' ∷ []
unfolding to_string decimal_loop
to_string_1024 = refl

abbrev repeat : ℕ → Bytes
repeat zero = []
repeat (suc n) = 0xA5 ∷ repeat n

repeat-IsByte : (n : ℕ) → All IsByte (repeat n)
repeat-IsByte zero = tt
repeat-IsByte (suc n) = (omega arith, repeat-IsByte n)

abbrev ab : Bytes
ab = b'a' ∷ b'b' ∷ []

abbrev nonce : Bytes
nonce = 0x30 ∷ []

transcript_inj_example : (ab ≡ ab) × (ab ≡ ab) × (nonce ≡ nonce) × (true ≡ true)
transcript_inj_example = transcript_inj ab ab nonce ab ab nonce true true refl

abbrev root_pool : StringPool
root_pool = (intern empty_pool []).1

abbrev ab_pool : StringPool
ab_pool = (intern root_pool ab).1

root_pool-IsPool : IsPool root_pool
root_pool-IsPool = (intern-IsInterned empty_pool [] empty_pool-IsPool).pool_again

ab_pool-IsPool : IsPool ab_pool
ab_pool-IsPool = (intern-IsInterned root_pool ab root_pool-IsPool).pool_again

ab_found : find ab_pool ab ≡ some (intern root_pool ab).0
ab_found = (intern-IsInterned root_pool ab root_pool-IsPool).found

intern-IsInterned_example : IsInterned root_pool ab (intern root_pool ab)
intern-IsInterned_example = intern-IsInterned root_pool ab root_pool-IsPool
