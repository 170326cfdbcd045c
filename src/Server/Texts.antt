-- ===== src/Server/Texts.antt =====
-- src/agent/server.cpp: the texts of its error replies.
use wsldrive.Prelude.{[], ◌∷◌, Bytes}

-- "not a mutation"
abbrev pub not_a_mutation : Bytes
not_a_mutation =
    b'n' ∷ b'o' ∷ b't' ∷ b' ' ∷ b'a' ∷ b' ' ∷ b'm' ∷ b'u' ∷ b't' ∷ b'a' ∷ b't' ∷ b'i' ∷ b'o' ∷ b'n'
    ∷ []

-- "path outside the served root"
abbrev pub outside_the_root : Bytes
outside_the_root =
    b'p' ∷ b'a' ∷ b't' ∷ b'h' ∷ b' ' ∷ b'o' ∷ b'u' ∷ b't' ∷ b's' ∷ b'i' ∷ b'd' ∷ b'e' ∷ b' ' ∷ b't'
    ∷ b'h' ∷ b'e' ∷ b' ' ∷ b's' ∷ b'e' ∷ b'r' ∷ b'v' ∷ b'e' ∷ b'd' ∷ b' ' ∷ b'r' ∷ b'o' ∷ b'o'
    ∷ b't' ∷ []

-- "read too large"
abbrev pub read_too_large : Bytes
read_too_large =
    b'r' ∷ b'e' ∷ b'a' ∷ b'd' ∷ b' ' ∷ b't' ∷ b'o' ∷ b'o' ∷ b' ' ∷ b'l' ∷ b'a' ∷ b'r' ∷ b'g' ∷ b'e'
    ∷ []

-- "scan failed"
abbrev pub scan_failed : Bytes
scan_failed = b's' ∷ b'c' ∷ b'a' ∷ b'n' ∷ b' ' ∷ b'f' ∷ b'a' ∷ b'i' ∷ b'l' ∷ b'e' ∷ b'd' ∷ []

-- "authenticate first"
abbrev pub authenticate_first : Bytes
authenticate_first =
    b'a' ∷ b'u' ∷ b't' ∷ b'h' ∷ b'e' ∷ b'n' ∷ b't' ∷ b'i' ∷ b'c' ∷ b'a' ∷ b't' ∷ b'e' ∷ b' ' ∷ b'f'
    ∷ b'i' ∷ b'r' ∷ b's' ∷ b't' ∷ []

-- "protocol version mismatch"
abbrev pub version_mismatch : Bytes
version_mismatch =
    b'p' ∷ b'r' ∷ b'o' ∷ b't' ∷ b'o' ∷ b'c' ∷ b'o' ∷ b'l' ∷ b' ' ∷ b'v' ∷ b'e' ∷ b'r' ∷ b's' ∷ b'i'
    ∷ b'o' ∷ b'n' ∷ b' ' ∷ b'm' ∷ b'i' ∷ b's' ∷ b'm' ∷ b'a' ∷ b't' ∷ b'c' ∷ b'h' ∷ []

-- "authentication failed"
abbrev pub authentication_failed : Bytes
authentication_failed =
    b'a' ∷ b'u' ∷ b't' ∷ b'h' ∷ b'e' ∷ b'n' ∷ b't' ∷ b'i' ∷ b'c' ∷ b'a' ∷ b't' ∷ b'i' ∷ b'o' ∷ b'n'
    ∷ b' ' ∷ b'f' ∷ b'a' ∷ b'i' ∷ b'l' ∷ b'e' ∷ b'd' ∷ []

-- "no entropy source for the handshake"
abbrev pub no_entropy : Bytes
no_entropy =
    b'n' ∷ b'o' ∷ b' ' ∷ b'e' ∷ b'n' ∷ b't' ∷ b'r' ∷ b'o' ∷ b'p' ∷ b'y' ∷ b' ' ∷ b's' ∷ b'o' ∷ b'u'
    ∷ b'r' ∷ b'c' ∷ b'e' ∷ b' ' ∷ b'f' ∷ b'o' ∷ b'r' ∷ b' ' ∷ b't' ∷ b'h' ∷ b'e' ∷ b' ' ∷ b'h'
    ∷ b'a' ∷ b'n' ∷ b'd' ∷ b's' ∷ b'h' ∷ b'a' ∷ b'k' ∷ b'e' ∷ []

-- "Auth before Hello"
abbrev pub auth_before_hello : Bytes
auth_before_hello =
    b'A' ∷ b'u' ∷ b't' ∷ b'h' ∷ b' ' ∷ b'b' ∷ b'e' ∷ b'f' ∷ b'o' ∷ b'r' ∷ b'e' ∷ b' ' ∷ b'H' ∷ b'e'
    ∷ b'l' ∷ b'l' ∷ b'o' ∷ []

-- "unexpected message type"
abbrev pub unexpected_type : Bytes
unexpected_type =
    b'u' ∷ b'n' ∷ b'e' ∷ b'x' ∷ b'p' ∷ b'e' ∷ b'c' ∷ b't' ∷ b'e' ∷ b'd' ∷ b' ' ∷ b'm' ∷ b'e' ∷ b's'
    ∷ b's' ∷ b'a' ∷ b'g' ∷ b'e' ∷ b' ' ∷ b't' ∷ b'y' ∷ b'p' ∷ b'e' ∷ []

-- "handshake timeout"
abbrev pub handshake_timeout : Bytes
handshake_timeout =
    b'h' ∷ b'a' ∷ b'n' ∷ b'd' ∷ b's' ∷ b'h' ∷ b'a' ∷ b'k' ∷ b'e' ∷ b' ' ∷ b't' ∷ b'i' ∷ b'm' ∷ b'e'
    ∷ b'o' ∷ b'u' ∷ b't' ∷ []
