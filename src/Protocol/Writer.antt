-- ===== src/Protocol/Writer.antt =====
-- src/core/protocol.cpp, `Writer`. A call of a `Writer` method is modelled by the bytes that it
-- appends to the output buffer, so a sequence of calls is the concatenation of theirs.
use wsldrive.Prelude.{
  ℕ, zero, suc, ◌+◌, ◌*◌, ◌/◌, ◌%◌, ◌^◌, bit_or, [], ◌∷◌, ◌++◌, Bytes, length, take, drop, ltb,
  if◌then◌else◌,
}
use wsldrive.Prelude.Int.{ℤ, to_u64}

-- `put_le`: byte `i` is `(v >> (8 * i)) & 0xFF`, for `n` values of `i`.
unfoldable pub put_le_from : ℕ → ℕ → ℕ → Bytes
put_le_from v i zero = []
put_le_from v i (suc n) = (v / 2 ^ (8 * i) % 256) ∷ put_le_from v (i + 1) n

unfoldable pub put_le : ℕ → ℕ → Bytes
put_le v n = put_le_from v 0 n

-- `static_cast<std::byte>(v)`
unfoldable pub u8 : ℕ → Bytes
u8 v = (v % 256) ∷ []

unfoldable pub u16 : ℕ → Bytes
u16 v = put_le v 2

unfoldable pub u32 : ℕ → Bytes
u32 v = put_le v 4

unfoldable pub u64 : ℕ → Bytes
u64 v = put_le v 8

unfoldable pub i64 : ℤ → Bytes
i64 v = u64 (to_u64 v)

-- `while (v >= 0x80)`. The fuel counts the rounds; a 64-bit value takes at most nine.
unfoldable pub varint_loop : ℕ → ℕ → Bytes
varint_loop zero v = (v % 256) ∷ []
varint_loop (suc fuel) v =
    let rest = bit_or (v % 128) 0x80 ∷ varint_loop fuel (v / 2 ^ 7) in
    if ltb v 0x80 then (v % 256) ∷ [] else rest

unfoldable pub varint : ℕ → Bytes
varint v = varint_loop 9 v

unfoldable pub raw : Bytes → Bytes
raw b = b

unfoldable pub string : Bytes → Bytes
string s = varint (length s) ++ s

unfoldable pub blob : Bytes → Bytes
blob b = varint (length b) ++ raw b

-- Overwrites four bytes at `pos` of a buffer.
unfoldable pub patch_u32 : Bytes → ℕ → ℕ → Bytes
patch_u32 out pos v = take pos out ++ (put_le v 4 ++ drop (pos + 4) out)
