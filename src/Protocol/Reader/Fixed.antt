-- ===== src/Protocol/Reader/Fixed.antt =====
-- The fixed-width reads of `Reader` take off what the writes of the same names append.
use native.Mathlib.Numerals.{towards_suc}
use native.Mathlib.Nat.{pow-suc, div-div-eq-div-mul, div-add-mod, mod-eq_of_lt}
use mathlib.Core.Path.{subst}
use wsldrive.Prelude.{
  ℕ, zero, suc, ◌+◌, ◌*◌, ◌/◌, ◌%◌, ◌^◌, ◌≤◌, ◌<◌, bit_or, ◌≡◌, refl, ap, sym, ◌∙◌, [], ◌∷◌, ◌++◌,
  Bytes, length, take, drop, length-append, take-append, drop-append, arith, ltb, false, le→ltb,
}
use wsldrive.Prelude.Bits.{bit_or-disjoint}
use wsldrive.Prelude.Int.{ℤ, IsI64, to_u64, of_u64, of_u64-to_u64, to_u64-lt}
use wsldrive.Types.{ok}
use wsldrive.Protocol.Writer
use wsldrive.Protocol.Writer.{put_le_from, put_le}
use wsldrive.Protocol.Reader
use wsldrive.Protocol.Reader.{get_le_from, get_le, fixed}
use wsldrive.Protocol.Reader.Law.{Reads, Reads-map}

-- The base-256 digits of `v`, lowest first.
digits : ℕ → ℕ → Bytes
digits v zero = []
digits v (suc n) = (v % 256) ∷ digits (v / 256) n

pow_next : (i : ℕ) → 2 ^ (8 * (i + 1)) ≡ 2 ^ (8 * i) * 256
pow_next i = let e : 8 * (i + 1) ≡ 8 * i + 8 = omega arith in rw e (simp towards_suc (omega arith))

put_le_from-digits : (v i n : ℕ) → put_le_from v i n ≡ digits (v / 2 ^ (8 * i)) n
unfolding put_le_from digits
put_le_from-digits v i zero = refl
put_le_from-digits v i (suc n) = ap (◌∷◌ (v / 2 ^ (8 * i) % 256)) (
    put_le_from-digits v (i + 1) n
    ∙ ap (λ (w : ℕ). digits w n)
        (ap (λ (w : ℕ). v / w) (pow_next i) ∙ sym (div-div-eq-div-mul v (2 ^ (8 * i)) 256)))

-- The lowest byte of `v` and the rest, both shifted by `i` bytes.
split_byte : (v i : ℕ) → v * 2 ^ (8 * i) ≡ v % 256 * 2 ^ (8 * i) + v / 256 * 2 ^ (8 * (i + 1))
split_byte v i = omega (
  arith,
  ap (λ (t : ℕ). t * 2 ^ (8 * i)) (div-add-mod v 256),
  ap (λ (t : ℕ). v / 256 * t) (pow_next i),
)

below_next : (r p acc : ℕ) → r < 256 → acc < p → acc + r * p < p * 256
below_next r p acc h k = grind arith

-- Setting one more byte by `|=` adds it.
or_byte :
    (acc r i : ℕ)
    → acc < 2 ^ (8 * i)
    → acc + r * 2 ^ (8 * i) < 2 ^ 64
    → bit_or acc (r * 2 ^ (8 * i) % 2 ^ 64) ≡ acc + r * 2 ^ (8 * i)
or_byte acc r i ha h =
    rw (mod-eq_of_lt {n = r * 2 ^ (8 * i)} {m = 2 ^ 64} (omega arith))
      (bit_or-disjoint (8 * i) acc r ha)

get_le_from-digits :
    (n v acc i : ℕ)
    → v < 256 ^ n
    → acc < 2 ^ (8 * i)
    → acc + v * 2 ^ (8 * i) < 2 ^ 64
    → get_le_from acc i (digits v n) ≡ acc + v * 2 ^ (8 * i)
unfolding get_le_from digits
get_le_from-digits zero v acc i hv ha h = let e : v ≡ 0 = omega arith in rw e (omega arith)
get_le_from-digits (suc n) v acc i hv ha h =
    ap (λ (t : ℕ). get_le_from t (i + 1) (digits (v / 256) n))
      (or_byte acc (v % 256) i ha (omega (arith, split_byte v i)))
    ∙ get_le_from-digits n (v / 256) (acc + v % 256 * 2 ^ (8 * i)) (i + 1)
        (omega (arith, pow-suc 256 n))
        (rw (pow_next i) (below_next (v % 256) (2 ^ (8 * i)) acc (omega arith) ha))
        (omega (arith, split_byte v i))
    ∙ omega (arith, split_byte v i)

pub get_le-put_le : (v n : ℕ) → n ≤ 8 → v < 256 ^ n → v < 2 ^ 64 → get_le (put_le v n) ≡ v
unfolding get_le put_le
get_le-put_le v n hn hv h = rw (put_le_from-digits v 0 n) (
    let e : v / 2 ^ (8 * 0) ≡ v = omega arith in
    rw e (get_le_from-digits n v 0 0 hv (omega arith) (omega arith) ∙ omega arith))

length-put_le_from : (v i n : ℕ) → length (put_le_from v i n) ≡ n
unfolding put_le_from
length-put_le_from v i zero = refl
length-put_le_from v i (suc n) = ap suc (length-put_le_from v (i + 1) n)

pub length-put_le : (v n : ℕ) → length (put_le v n) ≡ n
unfolding put_le
length-put_le v n = length-put_le_from v 0 n

-- A length-delimited read splits the input at that length.
pub split_at :
    (bs rest : Bytes) (n : ℕ)
    → length bs ≡ n
    → (ltb (length (bs ++ rest)) n ≡ false)
      × (take n (bs ++ rest) ≡ bs)
      × (drop n (bs ++ rest) ≡ rest)
split_at bs rest n h = rw (← h) (
  le→ltb (length (bs ++ rest)) (length bs) (omega (arith, length-append bs rest)),
  take-append bs rest,
  drop-append bs rest,
)

fixed-Reads : (n v : ℕ) → n ≤ 8 → v < 256 ^ n → v < 2 ^ 64 → Reads (fixed n) (put_le v n) v
unfolding fixed
fixed-Reads n v hn hv h = record { run = run }
  where
    run : (rest : Bytes) → fixed n (put_le v n ++ rest) ≡ ok (v, rest)
    run rest =
        let (shorter, front, back) = split_at (put_le v n) rest n (length-put_le v n) in
        rw (shorter, front, back, get_le-put_le v n hn hv h)

pub u8-Reads : (v : ℕ) → v < 256 → Reads Reader.u8 (Writer.u8 v) v
unfolding Reader.u8 Writer.u8
u8-Reads v h = record { run = λ rest. ground arith }

pub u16-Reads : (v : ℕ) → v < 2 ^ 16 → Reads Reader.u16 (Writer.u16 v) v
unfolding Reader.u16 Writer.u16
u16-Reads v h = fixed-Reads 2 v (omega arith) (omega arith) (omega arith)

pub u32-Reads : (v : ℕ) → v < 2 ^ 32 → Reads Reader.u32 (Writer.u32 v) v
unfolding Reader.u32 Writer.u32
u32-Reads v h = fixed-Reads 4 v (omega arith) (omega arith) (omega arith)

pub u64-Reads : (v : ℕ) → v < 2 ^ 64 → Reads Reader.u64 (Writer.u64 v) v
unfolding Reader.u64 Writer.u64
u64-Reads v h = fixed-Reads 8 v (omega arith) (omega arith) h

pub i64-Reads : (v : ℤ) → IsI64 v → Reads Reader.i64 (Writer.i64 v) v
unfolding Reader.i64 Writer.i64
i64-Reads v h =
    subst (λ z. Reads Reader.i64 (Writer.u64 (to_u64 v)) z) (of_u64-to_u64 v h)
      (Reads-map of_u64 (u64-Reads (to_u64 v) (to_u64-lt v)))

pub length-u8 : (v : ℕ) → length (Writer.u8 v) ≡ 1
unfolding Writer.u8
length-u8 v = refl

pub length-u32 : (v : ℕ) → length (Writer.u32 v) ≡ 4
unfolding Writer.u32
length-u32 v = length-put_le v 4

pub length-u64 : (v : ℕ) → length (Writer.u64 v) ≡ 8
unfolding Writer.u64
length-u64 v = length-put_le v 8

pub length-i64 : (v : ℤ) → length (Writer.i64 v) ≡ 8
unfolding Writer.i64
length-i64 v = length-u64 (to_u64 v)
