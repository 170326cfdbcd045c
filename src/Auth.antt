-- ===== src/Auth.antt =====
-- src/core/auth_token.cpp: the proofs of the handshake. The hash of BLAKE3 and the random bytes of the
-- operating system are parameters.
pub mod Transcript
pub mod Equal
use wsldrive.Prelude.{
  ℕ, zero, suc, ◌+◌, ◌/◌, ◌%◌, bit_or, bit_xor, Bool, true, false, not, List, [], ◌∷◌, ◌++◌, Bytes,
  length, ltb, ◌==◌, if◌then◌else◌,
}
use wsldrive.Hash.{hex}

-- `std::to_string` of an unsigned number: the loop takes off the last digit.
unfoldable pub decimal_loop : ℕ → ℕ → Bytes
decimal_loop zero n = []
decimal_loop (suc fuel) n =
    let front = decimal_loop fuel (n / 10) in
    (if ltb n 10 then [] else front) ++ (b'0' + n % 10) ∷ []

unfoldable pub to_string : ℕ → Bytes
to_string n = decimal_loop (n + 1) n

-- What `feed` appends to the bytes that the hasher has seen.
unfoldable pub feed : Bytes → Bytes
feed s = to_string (length s) ++ b':' ∷ s

-- "wsldrive-auth-v1", "server" and "client"
unfoldable pub domain : Bytes
domain =
    b'w' ∷ b's' ∷ b'l' ∷ b'd' ∷ b'r' ∷ b'i' ∷ b'v' ∷ b'e' ∷ b'-' ∷ b'a' ∷ b'u' ∷ b't' ∷ b'h' ∷ b'-'
    ∷ b'v' ∷ b'1' ∷ []

unfoldable pub direction : Bool → Bytes
direction true = b's' ∷ b'e' ∷ b'r' ∷ b'v' ∷ b'e' ∷ b'r' ∷ []
direction false = b'c' ∷ b'l' ∷ b'i' ∷ b'e' ∷ b'n' ∷ b't' ∷ []

-- All that `auth_proof` feeds to the hasher, in order.
unfoldable pub transcript : Bytes → Bytes → Bytes → Bool → Bytes
transcript token client_nonce server_nonce from_server =
    feed domain
    ++ (feed (direction from_server) ++ (feed token ++ (feed client_nonce ++ feed server_nonce)))

-- `blake3` maps the bytes fed to the 32 bytes of `finalize`.
unfoldable pub auth_proof : (Bytes → Bytes) → Bytes → Bytes → Bytes → Bool → Bytes
auth_proof blake3 token client_nonce server_nonce from_server =
    hex (blake3 (transcript token client_nonce server_nonce from_server))

-- The 16 bytes of the operating system; no bytes where it fails.
unfoldable pub generate_auth_token : Bytes → Bytes
generate_auth_token bytes = if length bytes == 16 then hex bytes else []

unfoldable pub diff_loop : ℕ → Bytes → Bytes → ℕ
diff_loop diff [] b = diff
diff_loop diff (x ∷ a) [] = diff
diff_loop diff (x ∷ a) (y ∷ b) = diff_loop (bit_or diff (bit_xor x y)) a b

unfoldable pub constant_time_equal : Bytes → Bytes → Bool
constant_time_equal a b = if not (length a == length b) then false else diff_loop 0 a b == 0
