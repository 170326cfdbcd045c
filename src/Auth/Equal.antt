-- ===== src/Auth/Equal.antt =====
-- `constant_time_equal` against the plain comparison.
use Prim.Native.Nat.{
  ℕ, zero, suc, ◌/◌, ◌%◌, ◌≤◌, max, differ, bit_or, bit_xor, digits, bit_or-bitwise,
  bit_xor-bitwise,
}
use wsldrive.Prelude.{
  ◌≡◌, refl, sym, ap, true, not, [], ◌∷◌, Bytes, arith, ◌==◌, bytes_eq, length, if_elim, Bool_ext,
  ◌↔◌, &&_iff, ◌∙◌, ◌&&◌, ==_iff,
}
use wsldrive.Auth.{diff_loop, constant_time_equal}

differ_zero : (x y : ℕ) → differ x y ≡ 0 → x ≡ y
differ_zero zero y h = sym h
differ_zero (suc x) zero h = absurd (omega arith)
differ_zero (suc x) (suc y) h = ap suc (differ_zero x y h)

differ_refl : (x : ℕ) → differ x x ≡ 0
differ_refl zero = refl
differ_refl (suc x) = differ_refl x

xor_digits_zero : (n a b : ℕ) → a ≤ n → digits (λ b. b) differ n a b ≡ 0 → a ≡ b
xor_digits_zero zero zero b le h = sym h
xor_digits_zero zero (suc a) b le h = absurd (omega arith)
xor_digits_zero (suc n) zero b le h = sym h
xor_digits_zero (suc n) (suc a) b le h =
    let half : suc a / 2 ≡ b / 2 =
      xor_digits_zero n (suc a / 2) (b / 2) (omega arith) (omega (arith, h)) in
    let last : suc a % 2 ≡ b % 2 = differ_zero (suc a % 2) (b % 2) (omega (arith, h)) in
    omega (arith, half, last)

xor_digits_refl : (n a : ℕ) → a ≤ n → digits (λ b. b) differ n a a ≡ 0
xor_digits_refl zero zero le = refl
xor_digits_refl zero (suc a) le = absurd (omega arith)
xor_digits_refl (suc n) zero le = refl
xor_digits_refl (suc n) (suc a) le =
    omega (arith, xor_digits_refl n (suc a / 2) (omega arith), differ_refl (suc a % 2))

or_digits_zero : (n a b : ℕ) → a ≤ n → digits (λ b. b) max n a b ≡ 0 → (a ≡ 0) × (b ≡ 0)
or_digits_zero zero zero b le h = (refl, h)
or_digits_zero zero (suc a) b le h = absurd (omega arith)
or_digits_zero (suc n) zero b le h = (refl, h)
or_digits_zero (suc n) (suc a) b le h =
    let half : (suc a / 2 ≡ 0) × (b / 2 ≡ 0) =
      or_digits_zero n (suc a / 2) (b / 2) (omega arith) (omega (arith, h)) in
    let last : max (suc a % 2) (b % 2) ≡ 0 = omega (arith, h) in
    (omega (arith, half.0, last), omega (arith, half.1, last))

bit_xor_zero : (a b : ℕ) → (bit_xor a b ≡ 0) ↔ (a ≡ b)
bit_xor_zero a b = (
  λ h. xor_digits_zero a a b (omega arith) (sym (bit_xor-bitwise a b) ∙ h),
  λ h. rw h (bit_xor-bitwise b b ∙ xor_digits_refl b b (omega arith)),
)

bit_or_zero : (a b : ℕ) → bit_or a b ≡ 0 → (a ≡ 0) × (b ≡ 0)
bit_or_zero a b h = or_digits_zero a a b (omega arith) (sym (bit_or-bitwise a b) ∙ h)

diff_loop_zero :
    (d : ℕ) (a b : Bytes)
    → length a ≡ length b
    → (diff_loop d a b ≡ 0) ↔ ((d ≡ 0) × (bytes_eq a b ≡ true))
unfolding diff_loop bytes_eq
diff_loop_zero d [] [] h = (λ e. (e, refl), λ e. e.0)
diff_loop_zero d [] (y ∷ b) h = absurd (omega arith)
diff_loop_zero d (x ∷ a) [] h = absurd (omega arith)
diff_loop_zero d (x ∷ a) (y ∷ b) h =
    let rest = diff_loop_zero (bit_or d (bit_xor x y)) a b (omega arith) in
    (λ e. forth (rest.0 e), λ e. rest.1 (back e))
  where
    forth :
        (bit_or d (bit_xor x y) ≡ 0) × (bytes_eq a b ≡ true)
        → (d ≡ 0) × (((x == y) && bytes_eq a b) ≡ true)
    forth (z, e) =
        let parts = bit_or_zero d (bit_xor x y) z in
        (
          parts.0,
          (&&_iff (x == y) (bytes_eq a b)).1 ((==_iff x y).1 ((bit_xor_zero x y).0 parts.1), e),
        )

    back :
        (d ≡ 0) × (((x == y) && bytes_eq a b) ≡ true)
        → (bit_or d (bit_xor x y) ≡ 0) × (bytes_eq a b ≡ true)
    back (z, e) =
        let parts = (&&_iff (x == y) (bytes_eq a b)).0 e in
        (rw (z, (bit_xor_zero x y).1 ((==_iff x y).0 parts.0)) refl, parts.1)

length_eq : (a b : Bytes) → bytes_eq a b ≡ true → length a ≡ length b
unfolding bytes_eq
length_eq [] [] h = refl
length_eq [] (y ∷ b) h = absurd (cc)
length_eq (x ∷ a) [] h = absurd (cc)
length_eq (x ∷ a) (y ∷ b) h = ap suc (length_eq a b ((&&_iff (x == y) (bytes_eq a b)).0 h).1)

-- The comparison that looks at every byte gives the result of the plain one.
pub constant_time_equal-bytes_eq : (a b : Bytes) → constant_time_equal a b ≡ bytes_eq a b
unfolding constant_time_equal
constant_time_equal-bytes_eq a b =
    if_elim (λ r. r ≡ bytes_eq a b) (not (length a == length b)) _ _
      (λ e.
        Bool_ext _ _ (λ h. absurd (cc)) (λ h. absurd (let same = length_eq a b h in ground arith)))
      (λ e.
        let zero_iff = diff_loop_zero 0 a b (ground arith) in
        Bool_ext _ _ (λ h. (zero_iff.0 ((==_iff _ _).0 h)).1)
          (λ h. (==_iff _ _).1 (zero_iff.1 (refl, h))))
