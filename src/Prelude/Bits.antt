-- ===== src/Prelude/Bits.antt =====
-- Laws of the bit operations: masks of one byte by tables, and `|` of disjoint numbers as a sum.
use Prim.Native.Nat.{
  ℕ, zero, suc, ◌+◌, ◌*◌, ◌/◌, ◌%◌, ◌^◌, ◌≤◌, ◌<◌, max, bit_or, digits, bit_or-bitwise,
}
use mathlib.Core.Path.{◌≡◌, refl, ap}
use mathlib.Core.Bool.{Bool, true, ◌&&◌}
use native.Mathlib.Omega.{arith}
use native.Mathlib.Nat.{pow-suc}
use native.Mathlib.Decide.{dec_lt}
use wsldrive.Prelude.Tests.{&&_iff, ◌==◌, ==_iff}

-- Whether a test holds of every number below a bound.
unfoldable pub holds_below : (ℕ → Bool) → ℕ → Bool
holds_below test zero = true
holds_below test (suc bound) = holds_below test bound && test bound

pub holds_below_lem :
    (test : ℕ → Bool) (bound k : ℕ) → k < bound → holds_below test bound ≡ true → test k ≡ true
unfolding holds_below
holds_below_lem test zero k below h = absurd (omega arith)
holds_below_lem test (suc bound) k below h =
    let halves = (&&_iff (holds_below test bound) (test bound)).0 h in
    elim (dec_lt k bound) [
      | yes lower ↦ holds_below_lem test bound k lower halves.0
      | no last ↦ let e : k ≡ bound = omega arith in rw e halves.1
    ]

-- Two functions that agree below `n` by evaluation agree there.
pub eq_below :
    (n : ℕ) (f g : ℕ → ℕ) → holds_below (λ x. f x == g x) n ≡ true → (x : ℕ) → x < n → f x ≡ g x
eq_below n f g h x lt = (==_iff (f x) (g x)).0 (holds_below_lem (λ x. f x == g x) n x lt h)

abbrev or_digits : ℕ → ℕ → ℕ → ℕ
or_digits n a b = digits (λ b. b) max n a b

or_digits_fuel : (n m a b : ℕ) → a ≤ n → a ≤ m → or_digits n a b ≡ or_digits m a b
or_digits_fuel zero zero a b p q = refl
or_digits_fuel zero (suc m) zero b p q = refl
or_digits_fuel zero (suc m) (suc a) b p q = absurd (omega arith)
or_digits_fuel (suc n) zero zero b p q = refl
or_digits_fuel (suc n) zero (suc a) b p q = absurd (omega arith)
or_digits_fuel (suc n) (suc m) zero b p q = refl
or_digits_fuel (suc n) (suc m) (suc a) b p q =
    omega (arith, or_digits_fuel n m (suc a / 2) (b / 2) (omega arith) (omega arith))

pub zero-bit_or : (b : ℕ) → bit_or 0 b ≡ b
zero-bit_or b = bit_or-bitwise 0 b

-- Both counts of digits are enough for half of `suc a`.
halved : (a b : ℕ) → or_digits a (suc a / 2) (b / 2) ≡ or_digits (suc a / 2) (suc a / 2) (b / 2)
halved a b = or_digits_fuel a (suc a / 2) (suc a / 2) (b / 2) (omega arith) (omega arith)

bit_or-halves : (a b : ℕ) → max (a % 2) (b % 2) + 2 * bit_or (a / 2) (b / 2) ≡ bit_or a b
bit_or-halves zero b = omega (arith, zero-bit_or b, zero-bit_or (b / 2))
bit_or-halves (suc a) b =
    omega (arith, bit_or-bitwise (suc a) b, bit_or-bitwise (suc a / 2) (b / 2), halved a b)

-- `a | (b << k)` is a sum where `a` lies below bit k.
pub bit_or-disjoint : (k a b : ℕ) → a < 2 ^ k → bit_or a (b * 2 ^ k) ≡ a + b * 2 ^ k
bit_or-disjoint zero a b h =
    let e : a ≡ 0 = omega arith in rw e (omega (arith, zero-bit_or (b * 1)))
bit_or-disjoint (suc k) a b h = omega (
  arith,
  bit_or-halves a (b * 2 ^ suc k),
  shifted,
  ap (bit_or (a / 2)) shifted_half,
  bit_or-disjoint k (a / 2) b (omega (arith, pow-suc 2 k)),
)
  where
    shifted : b * 2 ^ suc k ≡ 2 * (b * 2 ^ k)
    shifted = omega (arith, ap (λ (t : ℕ). b * t) (pow-suc 2 k))

    shifted_half : b * 2 ^ suc k / 2 ≡ b * 2 ^ k
    shifted_half = omega (arith, shifted)

bit_or-zero_fuel : (n a : ℕ) → a ≤ n → bit_or a 0 ≡ a
bit_or-zero_fuel n zero h = refl
bit_or-zero_fuel zero (suc a) h = absurd (omega arith)
bit_or-zero_fuel (suc n) (suc a) h =
    omega (arith, bit_or-halves (suc a) 0, bit_or-zero_fuel n (suc a / 2) (omega arith))

pub bit_or-zero : (a : ℕ) → bit_or a 0 ≡ a
bit_or-zero a = bit_or-zero_fuel a a (omega arith)

-- `(b << k) | a` is a sum where `a` lies below bit k.
pub bit_or-disjoint_left : (k b a : ℕ) → a < 2 ^ k → bit_or (b * 2 ^ k) a ≡ b * 2 ^ k + a
bit_or-disjoint_left zero b a h =
    let e : a ≡ 0 = omega arith in rw e (omega (arith, bit_or-zero (b * 1)))
bit_or-disjoint_left (suc k) b a h = omega (
  arith,
  bit_or-halves (b * 2 ^ suc k) a,
  shifted,
  ap (λ (t : ℕ). bit_or t (a / 2)) shifted_half,
  bit_or-disjoint_left k b (a / 2) (omega (arith, pow-suc 2 k)),
)
  where
    shifted : b * 2 ^ suc k ≡ 2 * (b * 2 ^ k)
    shifted = omega (arith, ap (λ (t : ℕ). b * t) (pow-suc 2 k))

    shifted_half : b * 2 ^ suc k / 2 ≡ b * 2 ^ k
    shifted_half = omega (arith, shifted)
