-- ===== src/Examples/Frames.antt =====
-- Runs of the frame channel over a socket that is a byte string: what is sent is put at its end.
use wsldrive.Prelude.{
  ℕ, ◌≡◌, refl, true, [], ◌∷◌, ◌++◌, Bytes, length, length-append, take, drop, take-append,
  drop-append, leb, le→leb, arith, if◌then◌else◌, ap, ◌∙◌,
}
use wsldrive.Types.{Result, ok, err, connection_closed}
use wsldrive.Protocol.Header.{FrameHeader, HeaderInRange, encode_header}
use wsldrive.Channel.{Socket, FrameChannel, receive}
use wsldrive.Channel.Receive.{IsStream, IsReceived, receive-encode_header}

abbrev take_exact : ℕ → Bytes → Result Bytes × Bytes
take_exact n s = if leb n (length s) then (ok (take n s), drop n s) else (err connection_closed, s)

abbrev pipe : Socket Bytes
pipe = record {
  send_all = λ bs s. (ok tt, s ++ bs);
  recv_exact = λ deadline n s. take_exact n s;
  wait_readable = λ wait s. (ok true, s);
  now = λ s. 0;
}

take_exact-append : (bs rest : Bytes) → take_exact (length bs) (bs ++ rest) ≡ (ok bs, rest)
take_exact-append bs rest =
    rw
      (
        le→leb (length bs) (length (bs ++ rest)) (omega (arith, length-append bs rest)),
        take-append bs rest,
        drop-append bs rest,
      )
      refl

pipe-IsStream : IsStream pipe (λ s. s)
pipe-IsStream = record {
  delivers = λ s bs rest e.
      let run : take_exact (length bs) s ≡ (ok bs, rest) =
        ap (take_exact (length bs)) e ∙ take_exact-append bs rest in
      (ap (λ (r : Result Bytes × Bytes). r.0) run, ap (λ (r : Result Bytes × Bytes). r.1) run);
}

abbrev header : FrameHeader
header = record { type = 9; flags = 0; payload_len = 2; request_id = 7 }

header-HeaderInRange : HeaderInRange header
header-HeaderInRange = record {
  type_u16 = omega arith;
  flags_u32 = omega arith;
  payload_len_u32 = omega arith;
  request_id_u64 = omega arith;
}

abbrev hi : Bytes
hi = b'h' ∷ b'i' ∷ []

abbrev tail : Bytes
tail = 1 ∷ 2 ∷ 3 ∷ []

abbrev channel : FrameChannel Bytes
channel = record {
  sock = encode_header header ++ (hi ++ tail);
  stats = record { frames_sent = 0; bytes_sent = 0; frames_received = 0; bytes_received = 0 };
  payload_limit = 1024;
  frame_timeout = 0;
}

receive-encode_header_example :
    IsReceived pipe
      (λ s. s)
      pipe-IsStream
      (record { header = header; payload = hi })
      tail
      channel.stats
      (receive pipe channel)
receive-encode_header_example =
    receive-encode_header pipe (λ s. s) pipe-IsStream channel header hi tail header-HeaderInRange
      refl (omega arith) (omega arith) refl refl
