-- ===== src/WinNames/Bytes3.antt =====
-- The three bytes that stand for an escaped byte, and how they are read.
use wsldrive.Prelude.{
  ℕ, ◌+◌, ◌*◌, ◌/◌, ◌%◌, ◌<◌, ◌≤◌, ◌≡◌, ◌≢◌, refl, ◌^◌, bit_and, bit_or, true, false, [], ◌∷◌,
  Bytes, arith, le→ltb, Option, none, some,
}
use wsldrive.Prelude.Bits.{holds_below, eq_below}
use wsldrive.WinNames.{is_reserved, is_dot_or_space, encode_utf8, code_point, decode_private}

-- UTF-8 of U+F000 + b.
abbrev pub private_use : ℕ → Bytes
private_use b = 0xEF ∷ (128 + b / 64) ∷ (128 + b % 64) ∷ []

second : (b : ℕ) → b < 256 → bit_or 0x80 ((0xF000 + b) / 2 ^ 6 % 64) % 256 ≡ 128 + b / 64
unfolding holds_below
second = eq_below 256 (λ b. bit_or 0x80 ((0xF000 + b) / 2 ^ 6 % 64) % 256) (λ b. 128 + b / 64) refl

third : (b : ℕ) → b < 256 → bit_or 0x80 ((0xF000 + b) % 64) % 256 ≡ 128 + b % 64
unfolding holds_below
third = eq_below 256 (λ b. bit_or 0x80 ((0xF000 + b) % 64) % 256) (λ b. 128 + b % 64) refl

first : (b : ℕ) → b < 256 → bit_or 0xE0 ((0xF000 + b) / 2 ^ 12) % 256 ≡ 0xEF
unfolding holds_below
first = eq_below 256 (λ b. bit_or 0xE0 ((0xF000 + b) / 2 ^ 12) % 256) (λ b. 0xEF) refl

pub encode-private_use : (b : ℕ) → b < 256 → encode_utf8 (0xF000 + b) ≡ private_use b
unfolding encode_utf8
encode-private_use b h = rw (
  le→ltb (0xF000 + b) 0x80 (omega arith),
  le→ltb (0xF000 + b) 0x800 (omega arith),
  first b h,
  second b h,
  third b h,
)

-- A byte read back, with 256 for a refusal.
or_256 : Option ℕ → ℕ
or_256 none = 256
or_256 (some c) = c

or_256-some : (o : Option ℕ) (c : ℕ) → or_256 o ≡ c → c < 256 → o ≡ some c
unfolding or_256
or_256-some none c e h = absurd (omega arith)
or_256-some (some d) c e h = ground arith

decode_table : (b : ℕ) → b < 256 → or_256 (decode_private 0xEF (128 + b / 64) (128 + b % 64)) ≡ b
unfolding holds_below or_256 decode_private code_point
decode_table =
    eq_below 256 (λ b. or_256 (decode_private 0xEF (128 + b / 64) (128 + b % 64))) (λ b. b) refl

pub decode-private_use :
    (b : ℕ) → b < 256 → decode_private 0xEF (128 + b / 64) (128 + b % 64) ≡ some b
decode-private_use b h = or_256-some _ b (decode_table b h) h

-- What the test accepts: a lead byte 0xEF and two continuation bytes.
pub decode_first : (b0 b1 b2 : ℕ) → b0 ≢ 0xEF → decode_private b0 b1 b2 ≡ none
unfolding decode_private
decode_first b0 b1 b2 h = ground arith

pub decode_second : (b0 b1 b2 : ℕ) → bit_and b1 0xFC ≢ 0x80 → decode_private b0 b1 b2 ≡ none
unfolding decode_private
decode_second b0 b1 b2 h = ground arith

pub decode_third : (b0 b1 b2 : ℕ) → bit_and b2 0xC0 ≢ 0x80 → decode_private b0 b1 b2 ≡ none
unfolding decode_private
decode_third b0 b1 b2 h = ground arith

-- ASCII bytes are no continuation bytes.
bit_and_fc_low : (b : ℕ) → b < 128 → bit_and b 0xFC ≡ b / 4 * 4
unfolding holds_below
bit_and_fc_low = eq_below 128 (λ b. bit_and b 0xFC) (λ b. b / 4 * 4) refl

bit_and_C0_low : (b : ℕ) → b < 128 → bit_and b 0xC0 ≡ b / 64 * 64
unfolding holds_below
bit_and_C0_low = eq_below 128 (λ b. bit_and b 0xC0) (λ b. b / 64 * 64) refl

pub ascii_second : (b : ℕ) → b < 128 → bit_and b 0xFC ≢ 0x80
ascii_second b h = omega (arith, bit_and_fc_low b h)

pub ascii_third : (b : ℕ) → b < 128 → bit_and b 0xC0 ≢ 0x80
ascii_third b h = omega (arith, bit_and_C0_low b h)

-- A byte that is escaped is ASCII; the bytes of an escape are not, and need none.
pub reserved-lt : (b : ℕ) → is_reserved b ≡ true → b < 128
unfolding is_reserved
reserved-lt b h = ground arith

pub dot_or_space-lt : (b : ℕ) → is_dot_or_space b ≡ true → b < 128
unfolding is_dot_or_space
dot_or_space-lt b h = ground arith

pub high_unreserved : (b : ℕ) → 128 ≤ b → is_reserved b ≡ false
unfolding is_reserved
high_unreserved b h = ground arith

pub high_no_dot : (b : ℕ) → 128 ≤ b → is_dot_or_space b ≡ false
unfolding is_dot_or_space
high_no_dot b h = ground arith
