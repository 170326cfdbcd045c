-- ===== src/Examples/Names.antt =====
-- Runs of the paths, the names for Windows, and the case folding.
use wsldrive.Prelude.{◌≡◌, ◌≢◌, refl, false, [], ◌∷◌, ◌++◌, Bytes, arith, inl, Option, some, length}
use wsldrive.WinNames.{needs_escaping, escape_for_windows, unescape_from_windows, decode_private}
use wsldrive.WinNames.Safe.{needs_escaping-escape_for_windows}
use wsldrive.WinNames.Bytes3.{private_use}
use wsldrive.WinNames.RoundTrip.{
  unescape_from_windows-escape_for_windows, unescape_changes_private_use,
}
use wsldrive.Unicode.{decode_utf8, encode_utf8}
use wsldrive.Unicode.Utf8.{decode_utf8-encode_utf8}

-- "a//./b\c/"
abbrev messy : Bytes
messy = b'a' ∷ b'/' ∷ b'/' ∷ b'.' ∷ b'/' ∷ b'b' ∷ 0x5C ∷ b'c' ∷ b'/' ∷ []

-- "a:b."
abbrev odd_name : Bytes
odd_name = b'a' ∷ b':' ∷ b'b' ∷ b'.' ∷ []

abbrev a_b : Bytes
a_b = b'a' ∷ b'/' ∷ b'b' ∷ []

needs_escaping-escape_for_windows_example : needs_escaping (escape_for_windows odd_name) ≡ false
needs_escaping-escape_for_windows_example =
    needs_escaping-escape_for_windows odd_name
      (omega arith, (omega arith, (omega arith, (omega arith, tt))))

no_escape :
    (decode_private b'a' b':' b'b' ≡ Option.none) × (decode_private b':' b'b' b'.' ≡ Option.none)
unfolding decode_private
no_escape = (refl, refl)

unescape_from_windows-escape_for_windows_example :
    unescape_from_windows (escape_for_windows odd_name) ≡ odd_name
unescape_from_windows-escape_for_windows_example =
    unescape_from_windows-escape_for_windows odd_name
      (omega arith, (omega arith, (omega arith, (omega arith, tt))))
      (no_escape.0, (no_escape.1, tt))

unescape_changes_private_use_example :
    unescape_from_windows (escape_for_windows (private_use b':' ++ a_b)) ≢ private_use b':' ++ a_b
unescape_changes_private_use_example =
    unescape_changes_private_use b':' a_b (omega arith) (λ e. omega arith)

decode_utf8-encode_utf8_example :
    decode_utf8 (encode_utf8 0x20AC ++ a_b) ≡ some (0x20AC, length (encode_utf8 0x20AC))
decode_utf8-encode_utf8_example =
    decode_utf8-encode_utf8 0x20AC a_b (omega arith, inl (omega arith))
