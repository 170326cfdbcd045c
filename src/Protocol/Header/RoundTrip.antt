-- ===== src/Protocol/Header/RoundTrip.antt =====
-- The frame header round trip, and every way in which `decode_header` fails.
use wsldrive.Prelude.{false, ◌≡◌, refl, ◌++◌, Bytes, length, arith, ltb, le→ltb, if◌then◌else◌}
use wsldrive.Types.{ok, err, too_large}
use wsldrive.Protocol.Writer.{put_le, put_le_from}
use wsldrive.Protocol.Reader.Fixed.{get_le-put_le}
use wsldrive.Protocol.Header.{
  magic, version, header_size, max_payload, FrameHeader, HeaderInRange, encode_header, get_le_at,
  decode_fields, decode_header,
}

module _ (h : FrameHeader) (rest : Bytes) (r : HeaderInRange h) where
  encoded : Bytes
  encoded = encode_header h ++ rest

  magic_field : get_le_at 0 4 encoded ≡ magic
  unfolding encoded encode_header get_le_at put_le put_le_from
  magic_field = get_le-put_le magic 4 (omega arith) (omega arith) (omega arith)

  version_field : get_le_at 4 2 encoded ≡ version
  unfolding encoded encode_header get_le_at put_le put_le_from
  version_field = get_le-put_le version 2 (omega arith) (omega arith) (omega arith)

  type_field : get_le_at 6 2 encoded ≡ h.type
  unfolding encoded encode_header get_le_at put_le put_le_from
  type_field = get_le-put_le h.type 2 (omega arith) (omega arith) (omega arith)

  flags_field : get_le_at 8 4 encoded ≡ h.flags
  unfolding encoded encode_header get_le_at put_le put_le_from
  flags_field = get_le-put_le h.flags 4 (omega arith) (omega arith) (omega arith)

  payload_len_field : get_le_at 12 4 encoded ≡ h.payload_len
  unfolding encoded encode_header get_le_at put_le put_le_from
  payload_len_field = get_le-put_le h.payload_len 4 (omega arith) (omega arith) (omega arith)

  request_id_field : get_le_at 16 8 encoded ≡ h.request_id
  unfolding encoded encode_header get_le_at put_le put_le_from
  request_id_field = get_le-put_le h.request_id 8 (omega arith) (omega arith) (omega arith)

  decode_fields-encode_header : decode_fields encoded ≡ h
  unfolding decode_fields
  decode_fields-encode_header =
      ground (arith, type_field, flags_field, payload_len_field, request_id_field)

  encoded_long : ltb (length encoded) header_size ≡ false
  unfolding encoded encode_header put_le put_le_from
  encoded_long = le→ltb (length encoded) header_size (omega arith)

  -- `decode_header` reads back every header that `encode_header` writes, whatever follows it,
  -- and refuses it as too large exactly where the payload length passes 64 MiB.
  pub decode_header-encode_header :
      decode_header (encode_header h ++ rest)
      ≡ (if ltb max_payload h.payload_len then err too_large else ok h)
  unfolding decode_header encoded
  decode_header-encode_header =
      rw (encoded_long, magic_field, version_field, decode_fields-encode_header) refl
