-- ===== src/WinNames.antt =====
-- src/core/win_names.hpp and win_names.cpp: POSIX names as they are shown on a Windows volume.
pub mod Bytes3
pub mod Safe
pub mod RoundTrip
use wsldrive.Prelude.{
  ℕ, ◌+◌, ◌-◌, ◌*◌, ◌/◌, ◌%◌, ◌^◌, bit_and, bit_or, Bool, true, false, not, ◌&&◌, ◌||◌, [], ◌∷◌,
  ◌++◌, Bytes, null, ltb, leb, ◌==◌, Option, none, some, if◌then◌else◌,
}

unfoldable pub is_reserved : ℕ → Bool
is_reserved b =
    (b == b'<')
    || ((b == b'>')
        || ((b == b':')
            || ((b == b'"')
                || ((b == b'|') || ((b == b'?') || ((b == b'*') || ((b == 0x5C) || ltb b 0x20)))))))

-- `cp` stays below 2 ^ 16 in this file, so there is no four-byte form. `&` with a mask of low
-- ones is `%`, `>>` is `/`, and `static_cast<char>` keeps the low byte.
unfoldable pub encode_utf8 : ℕ → Bytes
encode_utf8 cp =
    if ltb cp 0x80
    then (cp % 256) ∷ []
    else if ltb cp 0x800
    then (bit_or 0xC0 (cp / 2 ^ 6) % 256) ∷ (bit_or 0x80 (cp % 64) % 256) ∷ []
    else (bit_or 0xE0 (cp / 2 ^ 12) % 256)
      ∷ (bit_or 0x80 (cp / 2 ^ 6 % 64) % 256)
      ∷ (bit_or 0x80 (cp % 64) % 256)
      ∷ []

unfoldable pub is_dot_or_space : ℕ → Bool
is_dot_or_space b = (b == b'.') || (b == b' ')

unfoldable pub any_reserved : Bytes → Bool
any_reserved [] = false
any_reserved (c ∷ s) = is_reserved c || any_reserved s

-- `!raw.empty() && (raw.back() == '.' || raw.back() == ' ')`
unfoldable pub ends_badly : Bytes → Bool
ends_badly [] = false
ends_badly (c ∷ []) = is_dot_or_space c
ends_badly (c ∷ d ∷ s) = ends_badly (d ∷ s)

unfoldable pub needs_escaping : Bytes → Bool
needs_escaping raw = any_reserved raw || ends_badly raw

-- A byte is the last one where nothing follows it.
unfoldable pub escape_loop : Bytes → Bytes
escape_loop [] = []
escape_loop (b ∷ s) =
    (if is_reserved b || (null s && is_dot_or_space b) then encode_utf8 (0xF000 + b) else b ∷ [])
    ++ escape_loop s

unfoldable pub escape_for_windows : Bytes → Bytes
escape_for_windows raw = if not (needs_escaping raw) then raw else escape_loop raw

-- `(b0 & 0x0F) << 12 | (b1 & 0x3F) << 6 | (b2 & 0x3F)`
unfoldable pub code_point : ℕ → ℕ → ℕ → ℕ
code_point b0 b1 b2 = bit_or (bit_or (b0 % 16 * 2 ^ 12) (b1 % 64 * 2 ^ 6)) (b2 % 64)

-- The tests on three bytes; `some` is the byte that is put out for them.
unfoldable pub decode_private : ℕ → ℕ → ℕ → Option ℕ
decode_private b0 b1 b2 =
    if (b0 == 0xEF) && ((bit_and b1 0xFC == 0x80) && (bit_and b2 0xC0 == 0x80))
    then (if leb 0xF000 (code_point b0 b1 b2) && leb (code_point b0 b1 b2) 0xF0FF
        then some ((code_point b0 b1 b2 - 0xF000) % 256)
        else none)
    else none

unfoldable pub unescape_from_windows : Bytes → Bytes
unescape_from_windows [] = []
unescape_from_windows (b0 ∷ []) = b0 ∷ []
unescape_from_windows (b0 ∷ b1 ∷ []) = b0 ∷ unescape_from_windows (b1 ∷ [])
unescape_from_windows (b0 ∷ b1 ∷ b2 ∷ s) = elim (decode_private b0 b1 b2) [
  | some c ↦ c ∷ unescape_from_windows s
  | none ↦ b0 ∷ unescape_from_windows (b1 ∷ b2 ∷ s)
]
