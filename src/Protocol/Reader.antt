-- ===== src/Protocol/Reader.antt =====
-- src/core/protocol.cpp, `Reader`. The state of a reader is the part of its input from the
-- position on; `remaining()` is the length of it. A method that fails leaves no state, since
-- every caller returns the error at once.
pub mod Law
pub mod Fixed
pub mod Varint
pub mod Returns
use wsldrive.Prelude.{
  ℕ, ◌+◌, ◌*◌, ◌/◌, ◌%◌, ◌^◌, bit_or, Bool, ◌&&◌, [], ◌∷◌, Bytes, length, take, drop, ltb, leb,
  ◌==◌, if◌then◌else◌,
}
use wsldrive.Prelude.Int.{ℤ, of_u64}
use wsldrive.Types.{Errc, truncated, corrupt, Result, ok, err}

abbrev pub Reader {ℓ} : Type ℓ → Type ℓ
Reader A = Bytes → Result (A × Bytes)

unfoldable pub pure {ℓ} : {A : Type ℓ} → A → Reader A
pure a s = ok (a, s)

-- `if (!x) return fail(x.error());`, then the rest.
infixl 5 ◌>>=◌ ◌>>◌
unfoldable pub ◌>>=◌ {ℓ κ} : {A : Type ℓ} {B : Type κ} → Reader A → (A → Reader B) → Reader B
◌>>=◌ m f s = elim (m s) [ ok (a, t) ↦ f a t | err e ↦ err e ]

-- `if (!b) return fail(e);`
unfoldable pub check : Bool → Errc → Reader (Unit {0})
check b e s = if b then ok (tt, s) else err e

unfoldable pub ◌>>◌ {ℓ} : {B : Type ℓ} → Reader (Unit {0}) → Reader B → Reader B
m >> k = m >>= λ _. k

unfoldable pub remaining : Reader ℕ
remaining s = ok (length s, s)

-- `get_le`: `v |= static_cast<std::uint64_t>(p[i]) << (8 * i)`.
unfoldable pub get_le_from : ℕ → ℕ → Bytes → ℕ
get_le_from v i [] = v
get_le_from v i (b ∷ p) = get_le_from (bit_or v (b * 2 ^ (8 * i) % 2 ^ 64)) (i + 1) p

unfoldable pub get_le : Bytes → ℕ
get_le p = get_le_from 0 0 p

unfoldable pub raw : ℕ → Reader Bytes
raw n s = if ltb (length s) n then err truncated else ok (take n s, drop n s)

unfoldable pub u8 : Reader ℕ
u8 [] = err truncated
u8 (b ∷ s) = ok (b, s)

-- The fixed-width reads test `remaining()`, decode the bytes and step over them.
unfoldable pub fixed : ℕ → Reader ℕ
fixed n s = if ltb (length s) n then err truncated else ok (get_le (take n s), drop n s)

unfoldable pub u16 : Reader ℕ
u16 = fixed 2

unfoldable pub u32 : Reader ℕ
u32 = fixed 4

unfoldable pub u64 : Reader ℕ
u64 = fixed 8

unfoldable pub i64 : Reader ℤ
i64 = do v ← u64; pure (of_u64 v)

-- `for (unsigned shift = 0; shift < 64; shift += 7)`
unfoldable pub varint_loop : ℕ → ℕ → Bytes → Result (ℕ × Bytes)
varint_loop v shift [] = if ltb shift 64 then err truncated else err corrupt
varint_loop v shift (b ∷ s) =
    let v' = bit_or v (b % 128 * 2 ^ shift % 2 ^ 64) in
    let more = varint_loop v' (shift + 7) s in
    if ltb shift 64
    then (if b / 128 % 2 == 0
        then (if (shift == 63) && ltb 1 b then err corrupt else ok (v', s))
        else more)
    else err corrupt

unfoldable pub varint : Reader ℕ
varint s = varint_loop 0 0 s

unfoldable pub string : Reader Bytes
string = do n ← varint; raw n

unfoldable pub blob : Reader Bytes
blob = do n ← varint; left ← remaining; check (leb n left) truncated; raw n
