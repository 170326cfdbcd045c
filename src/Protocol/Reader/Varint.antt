-- ===== src/Protocol/Reader/Varint.antt =====
-- The varint, string and blob reads of `Reader` take off what the writes of those names append.
use native.Mathlib.Numerals.{towards_suc}
use native.Mathlib.Nat.{pow-suc, div-add-mod, mod-eq_of_lt}
use native.Mathlib.Decide.{dec_lt}
use wsldrive.Prelude.{
  ℕ, zero, suc, ◌+◌, ◌*◌, ◌/◌, ◌%◌, ◌^◌, ◌≤◌, ◌<◌, bit_or, ◌≡◌, refl, ap, ◌∙◌, ◌∷◌, ◌++◌, Bytes,
  length, length-append, arith, le→leb, le→ltb,
}
use wsldrive.Prelude.Bits.{holds_below, eq_below, bit_or-disjoint}
use wsldrive.Types.{ok, truncated}
use wsldrive.Protocol.Writer
use wsldrive.Protocol.Reader
use wsldrive.Protocol.Reader.{◌>>=◌, remaining}
use wsldrive.Protocol.Reader.Law.{Reads, Reads-bind, Reads-check}
use wsldrive.Protocol.Reader.Fixed.{split_at}

-- Varints. `w` is what is still to be read, and it counts from bit `shift` on.
continues : (g : ℕ) → g < 128 → bit_or g 0x80 ≡ g + 128
continues g h = eq_below 128 (λ x. bit_or x 0x80) (λ x. x + 128) (unfold holds_below in refl) g h

seven_more : (shift : ℕ) → 2 ^ (shift + 7) ≡ 128 * 2 ^ shift
seven_more shift = simp towards_suc (omega arith)

-- The low group of seven bits and the bits above it, at a place value `p`.
group_value : (p w : ℕ) → w % 128 * p + w / 128 * (128 * p) ≡ w * p
group_value p w = omega (arith, ap (λ (d : ℕ). d * p) (div-add-mod w 128))

groups : (w shift : ℕ) → w % 128 * 2 ^ shift + w / 128 * 2 ^ (shift + 7) ≡ w * 2 ^ shift
groups w shift = rw (seven_more shift) (group_value (2 ^ shift) w)

or_group :
    (v g s : ℕ) → v < 2 ^ s → v + g * 2 ^ s < 2 ^ 64 → bit_or v (g * 2 ^ s % 2 ^ 64) ≡ v + g * 2 ^ s
or_group v g s hv h =
    rw (mod-eq_of_lt {n = g * 2 ^ s} {m = 2 ^ 64} (omega arith)) (bit_or-disjoint s v g hv)

below_seven : (g p v : ℕ) → g < 128 → v < p → v + g * p < 128 * p
below_seven g p v h k = grind arith

-- The last byte, below 0x80.
last_byte :
    (w v shift : ℕ) (rest : Bytes)
    → w < 128
    → shift < 64
    → v < 2 ^ shift
    → v + w * 2 ^ shift < 2 ^ 64
    → Reader.varint_loop v shift (w ∷ rest) ≡ ok (v + w * 2 ^ shift, rest)
unfolding Reader.varint_loop
last_byte w v shift rest hw hs hv h = ground (arith, or_group v w shift)

-- A byte with the top bit set, over the group `g`.
inner_byte :
    (g v shift : ℕ) (rest : Bytes)
    → g < 128
    → shift < 64
    → v < 2 ^ shift
    → v + g * 2 ^ shift < 2 ^ 64
    → Reader.varint_loop v shift ((g + 128) ∷ rest)
      ≡ Reader.varint_loop (v + g * 2 ^ shift) (shift + 7) rest
unfolding Reader.varint_loop
inner_byte g v shift rest hg hs hv h = ground (arith, or_group v g shift)

varint-Reads_loop :
    (k w v shift : ℕ) (rest : Bytes)
    → w < 128 ^ suc k
    → shift + 7 * k < 64
    → v < 2 ^ shift
    → v + w * 2 ^ shift < 2 ^ 64
    → Reader.varint_loop v shift (Writer.varint_loop k w ++ rest) ≡ ok (v + w * 2 ^ shift, rest)
unfolding Writer.varint_loop
varint-Reads_loop zero w v shift rest hw hs hv h =
    let e : w % 256 ≡ w = omega arith in
    rw e (last_byte w v shift rest (omega arith) (omega arith) hv h)
varint-Reads_loop (suc k) w v shift rest hw hs hv h = elim (dec_lt w 128) [
  | yes small ↦ ground (arith, last_byte w v shift rest)
  | no big ↦
      rw (le→ltb w 128 (omega arith), continues (w % 128) (omega arith))
        (inner_byte (w % 128) v shift (Writer.varint_loop k (w / 2 ^ 7) ++ rest) (omega arith)
            (omega arith) hv (omega (arith, groups w shift))
          ∙ varint-Reads_loop k (w / 2 ^ 7) (v + w % 128 * 2 ^ shift) (shift + 7) rest
              (omega (arith, pow-suc 128 (suc k))) (omega arith)
              (rw (seven_more shift) (below_seven (w % 128) (2 ^ shift) v (omega arith) hv))
              (omega (arith, groups w shift))
          ∙ ap (λ (n : ℕ). ok (n, rest)) (omega (arith, groups w shift)))
]

-- The varint reader takes off exactly what the varint writer appends, for every 64-bit value.
pub varint-Reads : (v : ℕ) → v < 2 ^ 64 → Reads Reader.varint (Writer.varint v) v
unfolding Reader.varint Writer.varint
varint-Reads v h = record { run = run }
  where
    run : (rest : Bytes) → Reader.varint (Writer.varint v ++ rest) ≡ ok (v, rest)
    run rest =
        varint-Reads_loop 9 v 0 0 rest (omega arith) (omega arith) (omega arith) (omega arith)
        ∙ ap (λ (n : ℕ). ok (n, rest)) (omega arith)

pub raw-Reads : (bs : Bytes) → Reads (Reader.raw (length bs)) bs bs
unfolding Reader.raw
raw-Reads bs = record { run = run }
  where
    run : (rest : Bytes) → Reader.raw (length bs) (bs ++ rest) ≡ ok (bs, rest)
    run rest =
        let (shorter, front, back) = split_at bs rest (length bs) refl in rw (shorter, front, back)

pub string-Reads : (s : Bytes) → length s < 2 ^ 64 → Reads Reader.string (Writer.string s) s
unfolding Reader.string Writer.string
string-Reads s h = Reads-bind _ (varint-Reads (length s) h) (raw-Reads s)

-- The explicit length test of `Reader::blob` passes where the bytes are there.
pub Reads-fits {ℓ} :
    {B : Type ℓ} (f : ℕ → Reader.Reader B) {bs : Bytes} {b : B}
    → ((left : ℕ) → length bs ≤ left → Reads (f left) bs b)
    → Reads (remaining >>= f) bs b
unfolding remaining ◌>>=◌
Reads-fits f {bs} h = record {
  run = λ rest. (h (length (bs ++ rest)) (omega (arith, length-append bs rest))).run rest;
}

pub blob-Reads : (b : Bytes) → length b < 2 ^ 64 → Reads Reader.blob (Writer.blob b) b
unfolding Reader.blob Writer.blob Writer.raw
blob-Reads b h =
    Reads-bind _ (varint-Reads (length b) h)
      (Reads-fits _ (λ left enough. Reads-check truncated (le→leb _ _ enough) (raw-Reads b)))

length-varint_loop : (k v : ℕ) → 1 ≤ length (Writer.varint_loop k v)
unfolding Writer.varint_loop
length-varint_loop zero v = omega arith
length-varint_loop (suc k) v = ground (arith, length-varint_loop k (v / 2 ^ 7))

pub length-varint : (v : ℕ) → 1 ≤ length (Writer.varint v)
unfolding Writer.varint
length-varint v = length-varint_loop 9 v

pub length-string : (s : Bytes) → 1 ≤ length (Writer.string s)
unfolding Writer.string
length-string s =
    omega (arith, length-varint (length s), length-append (Writer.varint (length s)) s)
