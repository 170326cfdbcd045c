-- ===== src/Channel.antt =====
-- src/net/frame_channel.hpp and frame_channel.cpp: frames over a stream socket. The socket is an
-- interface; the mutex of the sender and the reused buffers do not show in the results.
pub mod Receive
use wsldrive.Prelude.{
  ℕ, ◌+◌, ◌<◌, Bool, true, false, not, List, [], ◌∷◌, ◌++◌, Bytes, length, ltb, ◌==◌, Option, none,
  some, if◌then◌else◌,
}
use wsldrive.Types.{Errc, Result, ok, err, too_large, timeout}
use wsldrive.Protocol.Header.{
  MsgType, FrameHeader, header_size, max_payload, encode_header, decode_header, frame_header,
  write_frame,
}

-- What the channel calls of `Socket`, over the state of the connection; `recv_exact` is given the
-- number of bytes to fill and the deadline, if there is one.
pub record Socket (S : Type 0) : Type 0 where
  pub send_all : Bytes → S → Result (Unit {0}) × S
  pub recv_exact : Option ℕ → ℕ → S → Result Bytes × S
  pub wait_readable : ℕ → S → Result Bool × S
  pub now : S → ℕ

pub record Stats : Type 0 where
  pub frames_sent : ℕ
  pub bytes_sent : ℕ
  pub frames_received : ℕ
  pub bytes_received : ℕ

pub record Frame : Type 0 where
  pub header : FrameHeader
  pub payload : Bytes

-- `payload_limit` is `max_payload_`.
pub record FrameChannel (S : Type 0) : Type 0 where
  pub sock : S
  pub stats : Stats
  pub payload_limit : ℕ
  pub frame_timeout : ℕ

unfoldable pub count_sent : ℕ → Stats → Stats
count_sent n s = record s { frames_sent = s.frames_sent + 1; bytes_sent = s.bytes_sent + n }

unfoldable pub count_received : ℕ → Stats → Stats
count_received n s = record s {
  frames_received = s.frames_received + 1;
  bytes_received = s.bytes_received + n;
}

module _ {S : Type 0} (socket : Socket S) where
  unfoldable pub open_channel : S → FrameChannel S
  open_channel s = record {
    sock = s;
    stats = record { frames_sent = 0; bytes_sent = 0; frames_received = 0; bytes_received = 0 };
    payload_limit = max_payload;
    frame_timeout = 0;
  }

  unfoldable pub set_receive_limits : ℕ → ℕ → FrameChannel S → FrameChannel S
  set_receive_limits limit frame_timeout ch = record ch {
    payload_limit = limit;
    frame_timeout = frame_timeout;
  }

  unfoldable pub sent :
      ℕ → FrameChannel S → Result (Unit {0}) × S → Result (Unit {0}) × FrameChannel S
  sent n ch (ok u, s) = (ok u, record ch { sock = s; stats = count_sent n ch.stats })
  sent n ch (err e, s) = (err e, record ch { sock = s })

  unfoldable pub send :
      MsgType → ℕ → Bytes → ℕ → FrameChannel S → Result (Unit {0}) × FrameChannel S
  send type request_id payload flags ch =
      let frame = encode_header (frame_header type request_id flags payload) ++ payload in
      if ltb max_payload (length payload)
      then (err too_large, ch)
      else sent (length frame) ch (socket.send_all frame ch.sock)

  unfoldable pub send_raw : Bytes → FrameChannel S → Result (Unit {0}) × FrameChannel S
  send_raw frames ch =
      if ltb (header_size + max_payload) (length frames)
      then (err too_large, ch)
      else sent (length frames) ch (socket.send_all frames ch.sock)

  -- `body` appends `payload` to the buffer of the frame.
  unfoldable pub send_with :
      MsgType → ℕ → Bytes → FrameChannel S → Result (Unit {0}) × FrameChannel S
  send_with type request_id payload ch = send_raw (write_frame [] type request_id payload 0) ch

  -- The end of `receive`, with the payload.
  unfoldable pub received :
      FrameHeader → FrameChannel S → Result Bytes × S → Result Frame × FrameChannel S
  received h ch (err e, s) = (err e, record ch { sock = s })
  received h ch (ok payload, s) = (
    ok (record { header = h; payload = payload }),
    record ch { sock = s; stats = count_received (header_size + h.payload_len) ch.stats },
  )

  -- The part of `receive` behind `decode_header`.
  unfoldable pub receive_payload :
      Option ℕ → FrameChannel S → Result FrameHeader → Result Frame × FrameChannel S
  receive_payload deadline ch (err e) = (err e, ch)
  receive_payload deadline ch (ok h) =
      if ltb ch.payload_limit h.payload_len
      then (err too_large, ch)
      else received h ch (
          if not (h.payload_len == 0)
          then socket.recv_exact deadline h.payload_len ch.sock
          else (ok [], ch.sock))

  unfoldable pub receive_header :
      Option ℕ → FrameChannel S → Result Bytes × S → Result Frame × FrameChannel S
  receive_header deadline ch (err e, s) = (err e, record ch { sock = s })
  receive_header deadline ch (ok hdr, s) =
      receive_payload deadline (record ch { sock = s }) (decode_header hdr)

  unfoldable pub receive : FrameChannel S → Result Frame × FrameChannel S
  receive ch =
      let deadline =
        (if ltb 0 ch.frame_timeout then some (socket.now ch.sock + ch.frame_timeout) else none) in
      receive_header deadline ch (socket.recv_exact deadline header_size ch.sock)

  unfoldable pub waited : FrameChannel S → Result Bool × S → Result Frame × FrameChannel S
  waited ch (err e, s) = (err e, record ch { sock = s })
  waited ch (ok false, s) = (err timeout, record ch { sock = s })
  waited ch (ok true, s) = receive (record ch { sock = s })

  -- `receive(timeout)`
  unfoldable pub receive_within : ℕ → FrameChannel S → Result Frame × FrameChannel S
  receive_within wait ch = waited ch (socket.wait_readable wait ch.sock)
