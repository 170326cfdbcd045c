-- ===== src/Protocol/Header.antt =====
-- src/core/protocol.hpp and protocol.cpp: the 24-byte frame header and `write_frame`.
pub mod RoundTrip
use wsldrive.Prelude.{
  ℕ, ◌+◌, ◌-◌, ◌*◌, ◌%◌, ◌^◌, ◌<◌, ◌≤◌, not, [], ◌++◌, Bytes, length, take, drop, ltb, ◌==◌,
  if◌then◌else◌,
}
use wsldrive.Types.{Result, ok, err, truncated, bad_magic, unsupported_version, too_large}
use wsldrive.Protocol.Writer.{put_le}
use wsldrive.Protocol.Reader.{get_le}

abbrev pub magic : ℕ
magic = 0x444C5357

abbrev pub version : ℕ
version = 4

abbrev pub header_size : ℕ
header_size = 24

abbrev pub max_payload : ℕ
max_payload = 64 * 2 ^ 20

-- An enum with a fixed 16-bit underlying type: the decoder casts any 16-bit code to it.
abbrev pub MsgType : Type 0
MsgType = ℕ

pub record FrameHeader : Type 0 where
  pub type : MsgType
  pub flags : ℕ
  pub payload_len : ℕ
  pub request_id : ℕ

-- The values that the C++ fields can hold.
pub record HeaderInRange (h : FrameHeader) : Type 0 where
  pub type_u16 : h.type < 2 ^ 16
  pub flags_u32 : h.flags < 2 ^ 32
  pub payload_len_u32 : h.payload_len < 2 ^ 32
  pub request_id_u64 : h.request_id < 2 ^ 64

-- The six `put_le` calls fill the span of 24 bytes from left to right.
unfoldable pub encode_header : FrameHeader → Bytes
encode_header h =
    put_le magic 4
    ++ (put_le version 2
        ++ (put_le h.type 2
            ++ (put_le h.flags 4 ++ (put_le h.payload_len 4 ++ put_le h.request_id 8))))

-- `get_le(in.data() + at, n)`
unfoldable pub get_le_at : ℕ → ℕ → Bytes → ℕ
get_le_at at n b = get_le (take n (drop at b))

unfoldable pub decode_fields : Bytes → FrameHeader
decode_fields b = record {
  type = get_le_at 6 2 b;
  flags = get_le_at 8 4 b;
  payload_len = get_le_at 12 4 b;
  request_id = get_le_at 16 8 b;
}

unfoldable pub decode_header : Bytes → Result FrameHeader
decode_header b =
    if ltb (length b) header_size
    then err truncated
    else if not (get_le_at 0 4 b == magic)
    then err bad_magic
    else if not (get_le_at 4 2 b == version)
    then err unsupported_version
    else if ltb max_payload (decode_fields b).payload_len
    then err too_large
    else ok (decode_fields b)

-- `payload_len` is the length cast to 32 bits.
unfoldable pub frame_header : MsgType → ℕ → ℕ → Bytes → FrameHeader
frame_header type request_id flags payload = record {
  type = type;
  flags = flags;
  payload_len = length payload % 2 ^ 32;
  request_id = request_id;
}

-- Reserves the header behind what the buffer holds, lets the body append `payload`, and fills
-- the header in.
unfoldable pub write_frame : Bytes → MsgType → ℕ → Bytes → ℕ → Bytes
write_frame buf type request_id payload flags =
    buf ++ (encode_header (frame_header type request_id flags payload) ++ payload)
