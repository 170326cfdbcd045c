-- ===== src/Channel/Receive.antt =====
-- `receive` over a socket that delivers: it takes one frame off the stream.
use wsldrive.Prelude.{
  ◌+◌, ◌≤◌, ◌≡◌, refl, sym, ap, ◌∙◌, false, not, [], ◌∷◌, ◌++◌, append-nil, Bytes, length, ltb,
  ◌==◌, le→ltb, arith, none, some, if◌then◌else◌, if_elim,
}
use mathlib.Core.Path.{subst}
use wsldrive.Types.{Result, ok, err, too_large}
use wsldrive.Protocol.Writer.{put_le, put_le_from}
use wsldrive.Protocol.Header.{
  FrameHeader, HeaderInRange, header_size, max_payload, encode_header, decode_header,
}
use wsldrive.Protocol.Header.RoundTrip.{decode_header-encode_header}
use wsldrive.Channel.{
  Socket, Stats, Frame, FrameChannel, count_received, received, receive_payload, receive_header,
  receive,
}

-- A call that fills a buffer of `n` bytes, where they have arrived, takes them off the front of the
-- stream. `inbound` is what is still to be read; nothing is said of calls with a deadline.
pub record IsStream {S : Type 0} (socket : Socket S) (inbound : S → Bytes) : Type 0 where
  pub delivers :
      (s : S) (bs rest : Bytes)
      → inbound s ≡ bs ++ rest
      → ((socket.recv_exact none (length bs) s).0 ≡ ok bs)
        × (inbound (socket.recv_exact none (length bs) s).1 ≡ rest)

length-encode_header : (h : FrameHeader) → length (encode_header h) ≡ header_size
unfolding encode_header put_le put_le_from
length-encode_header h = refl

no_bytes : (bs : Bytes) → length bs ≡ 0 → bs ≡ []
no_bytes [] h = refl
no_bytes (b ∷ bs) h = absurd (omega arith)

module _ {S : Type 0} (socket : Socket S) (inbound : S → Bytes)
    (stream : IsStream socket inbound) where
  -- What the receiver is left with: the frame, the stream behind it, one more frame counted.
  pub record IsReceived (frame : Frame) (rest : Bytes) (before : Stats)
      (r : Result Frame × FrameChannel S) : Type 0 where
    pub result : r.0 ≡ ok frame
    pub left : inbound r.1.sock ≡ rest
    pub counted : r.1.stats ≡ count_received (header_size + frame.header.payload_len) before

  received-IsReceived :
      (ch : FrameChannel S) (h : FrameHeader) (payload rest : Bytes) (o : Result Bytes × S)
      → o.0 ≡ ok payload
      → inbound o.1 ≡ rest
      → IsReceived (record { header = h; payload = payload }) rest ch.stats (received socket h ch o)
  unfolding received
  received-IsReceived ch h payload rest (err x, s) e i = absurd (cc)
  received-IsReceived ch h payload rest (ok p, s) e i =
      let same : p ≡ payload = cc in
      record {
        result = ap (λ q. ok (record { header = h; payload = q })) same;
        left = i;
        counted = refl;
      }

  receive_payload-IsReceived :
      (ch : FrameChannel S) (h : FrameHeader) (payload rest : Bytes)
      → length payload ≡ h.payload_len
      → h.payload_len ≤ ch.payload_limit
      → inbound ch.sock ≡ payload ++ rest
      → IsReceived
          (record { header = h; payload = payload })
          rest
          ch.stats
          (receive_payload socket none ch (ok h))
  unfolding receive_payload
  receive_payload-IsReceived ch h payload rest size fits arrived =
      if_elim
        (λ (r : Result Frame × FrameChannel S).
          IsReceived (record { header = h; payload = payload }) rest ch.stats r)
        (ltb ch.payload_limit h.payload_len) _ _ (λ e. absurd (ground arith))
        (λ e. received-IsReceived ch h payload rest _ (taken.0) (taken.1))
    where
      taken :
          ((if not (h.payload_len == 0)
              then socket.recv_exact none h.payload_len ch.sock
              else (ok [], ch.sock)).0
            ≡ ok payload)
          × (inbound
                (if not (h.payload_len == 0)
                  then socket.recv_exact none h.payload_len ch.sock
                  else (ok [], ch.sock)).1
              ≡ rest)
      taken =
          if_elim (λ (o : Result Bytes × S). (o.0 ≡ ok payload) × (inbound o.1 ≡ rest))
            (not (h.payload_len == 0)) _ _
            (λ some_left. rw (sym size) (stream.delivers ch.sock payload rest arrived))
            (λ nothing.
              let empty = no_bytes payload (ground arith) in
              (ap ok (sym empty), arrived ∙ ap (λ p. p ++ rest) empty))

  receive_header-IsReceived :
      (ch : FrameChannel S) (h : FrameHeader) (payload rest : Bytes) (o : Result Bytes × S)
      → decode_header (encode_header h) ≡ ok h
      → length payload ≡ h.payload_len
      → h.payload_len ≤ ch.payload_limit
      → o.0 ≡ ok (encode_header h)
      → inbound o.1 ≡ payload ++ rest
      → IsReceived
          (record { header = h; payload = payload })
          rest
          ch.stats
          (receive_header socket none ch o)
  unfolding receive_header
  receive_header-IsReceived ch h payload rest (err x, s) decoded size fits e i = absurd (cc)
  receive_header-IsReceived ch h payload rest (ok hdr, s) decoded size fits e i =
      let same : hdr ≡ encode_header h = cc in
      let read : decode_header hdr ≡ ok h = ap decode_header same ∙ decoded in
      subst
        (λ d.
          IsReceived (record { header = h; payload = payload }) rest ch.stats
            (receive_payload socket none (record ch { sock = s }) d))
        (sym read) (receive_payload-IsReceived (record ch { sock = s }) h payload rest size fits i)

  -- `receive` takes a frame off the stream and leaves what follows it, where the header's fields
  -- are in range, the payload is as long as the header says and within both limits, and no time
  -- limit is set.
  pub receive-encode_header :
      (ch : FrameChannel S) (h : FrameHeader) (payload rest : Bytes)
      → HeaderInRange h
      → length payload ≡ h.payload_len
      → h.payload_len ≤ max_payload
      → h.payload_len ≤ ch.payload_limit
      → ch.frame_timeout ≡ 0
      → inbound ch.sock ≡ encode_header h ++ (payload ++ rest)
      → IsReceived (record { header = h; payload = payload }) rest ch.stats (receive socket ch)
  unfolding receive
  receive-encode_header ch h payload rest range size small fits untimed arrived =
      let decoded : decode_header (encode_header h) ≡ ok h =
        ap decode_header (sym (append-nil (encode_header h)))
        ∙ decode_header-encode_header h [] range
        ∙ ap (λ b. if b then err too_large else ok h) (le→ltb max_payload h.payload_len small) in
      let taken =
        subst
          (λ n.
            ((socket.recv_exact none n ch.sock).0 ≡ ok (encode_header h))
            × (inbound (socket.recv_exact none n ch.sock).1 ≡ payload ++ rest))
          (length-encode_header h)
          (stream.delivers ch.sock (encode_header h) (payload ++ rest) arrived) in
      subst
        (λ d.
          IsReceived (record { header = h; payload = payload }) rest ch.stats
            (receive_header socket d ch (socket.recv_exact d header_size ch.sock)))
        (sym no_deadline)
        (receive_header-IsReceived ch h payload rest (socket.recv_exact none header_size ch.sock)
          decoded size fits taken.0 taken.1)
    where
      no_deadline :
          (if ltb 0 ch.frame_timeout then some (socket.now ch.sock + ch.frame_timeout) else none)
          ≡ none
      no_deadline =
          let off : ltb 0 ch.frame_timeout ≡ false = ground arith in
          ap (λ b. if b then some (socket.now ch.sock + ch.frame_timeout) else none) off
