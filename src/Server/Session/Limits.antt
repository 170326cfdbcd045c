-- ===== src/Server/Session/Limits.antt =====
-- Sending and receiving leave the limit of a channel's payloads.
use wsldrive.Prelude.{ℕ, ◌≡◌, refl, Bool, true, false, Bytes, length, ltb, if_elim, ◌+◌, Option}
use wsldrive.Types.{Result, ok, err}
use wsldrive.Protocol.Header.{MsgType, max_payload, header_size, FrameHeader}
use wsldrive.Channel.{
  Socket, Frame, FrameChannel, send, send_raw, send_with, sent, receive_within, waited, receive,
  receive_header, receive_payload, received,
}

module _ {S : Type 0} (socket : Socket S) where
  abbrev pub Same : {A : Type 0} → FrameChannel S → A × FrameChannel S → Type 0
  Same ch r = r.1.payload_limit ≡ ch.payload_limit

  sent-Same :
      (n : ℕ) (ch : FrameChannel S) (r : Result (Unit {0}) × S) → Same ch (sent socket n ch r)
  unfolding sent
  sent-Same n ch (ok u, s) = refl
  sent-Same n ch (err e, s) = refl

  send_raw-Same : (b : Bytes) (ch : FrameChannel S) → Same ch (send_raw socket b ch)
  unfolding send_raw
  send_raw-Same b ch =
      if_elim (λ (r : Result (Unit {0}) × FrameChannel S). Same ch r)
        (ltb (header_size + max_payload) (length b)) _ _ (λ e. refl) (λ e. sent-Same _ ch _)

  pub send_with-Same :
      (type : MsgType) (id : ℕ) (payload : Bytes) (ch : FrameChannel S)
      → Same ch (send_with socket type id payload ch)
  unfolding send_with
  send_with-Same type id payload ch = send_raw-Same _ ch

  pub send-Same :
      (type : MsgType) (id : ℕ) (payload : Bytes) (flags : ℕ) (ch : FrameChannel S)
      → Same ch (send socket type id payload flags ch)
  unfolding send
  send-Same type id payload flags ch =
      if_elim (λ (r : Result (Unit {0}) × FrameChannel S). Same ch r)
        (ltb max_payload (length payload)) _ _ (λ e. refl) (λ e. sent-Same _ ch _)

  received-Same :
      (h : FrameHeader) (ch : FrameChannel S) (r : Result Bytes × S)
      → Same ch (received socket h ch r)
  unfolding received
  received-Same h ch (ok payload, s) = refl
  received-Same h ch (err e, s) = refl

  receive_payload-Same :
      (deadline : Option ℕ) (ch : FrameChannel S) (h : Result FrameHeader)
      → Same ch (receive_payload socket deadline ch h)
  unfolding receive_payload
  receive_payload-Same deadline ch (err e) = refl
  receive_payload-Same deadline ch (ok h) =
      if_elim (λ (r : Result Frame × FrameChannel S). Same ch r)
        (ltb ch.payload_limit h.payload_len) _ _ (λ e. refl) (λ e. received-Same h ch _)

  receive_header-Same :
      (deadline : Option ℕ) (ch : FrameChannel S) (r : Result Bytes × S)
      → Same ch (receive_header socket deadline ch r)
  unfolding receive_header
  receive_header-Same deadline ch (err e, s) = refl
  receive_header-Same deadline ch (ok hdr, s) =
      receive_payload-Same deadline (record ch { sock = s }) _

  waited-Same : (ch : FrameChannel S) (r : Result Bool × S) → Same ch (waited socket ch r)
  unfolding waited receive
  waited-Same ch (err e, s) = refl
  waited-Same ch (ok false, s) = refl
  waited-Same ch (ok true, s) = receive_header-Same _ (record ch { sock = s }) _

  pub receive_within-Same :
      (wait : ℕ) (ch : FrameChannel S) → Same ch (receive_within socket wait ch)
  unfolding receive_within
  receive_within-Same wait ch = waited-Same ch _
