-- ===== src/Examples/Sessions.antt =====
-- Runs of a session: a handshake over the bytes of two frames, and frames that are refused.
use wsldrive.Prelude.{
  ℕ, ◌≡◌, refl, Bool, true, false, [], ◌∷◌, ◌++◌, Bytes, length, take, null, ◌==◌, ◌⊎◌,
}
use wsldrive.Types.{Result, ok, err, unauthorized}
use wsldrive.Auth.{auth_proof, generate_auth_token}
use wsldrive.Protocol.Header.{MsgType, version, max_payload, write_frame, FrameHeader}
use wsldrive.Protocol.MsgTypes
use wsldrive.Protocol.Messages.{Hello, write_hello}
use wsldrive.Channel.{Frame, open_channel}
use wsldrive.Server.Files.{Served}
use wsldrive.Server.Session.{Session, Setting, begin, serve_round, handle}
use wsldrive.Server.Session.Gate.{IsGated, handle-IsGated}
use wsldrive.Server.Session.Reach.{Reach, begun, goes_on, IsServing, Reach-IsServing}
use wsldrive.Server.Session.Authenticated.{WasProven, Reach-authed}
use wsldrive.Examples.Agent.{World, toy, inbox, srv, served}

abbrev token : Bytes
token = b't' ∷ []

abbrev nonce : Bytes
nonce = b'n' ∷ []

-- The hash keeps the first two bytes.
abbrev env : Setting World Bytes
env = record {
  disk = toy;
  socket = inbox;
  blake3 = λ b. take 2 b;
  agent = [];
  root = srv;
  token = token;
  watching = true;
  send_snapshot = λ id s. (ok tt, s);
}

abbrev random : Bytes
random = 0 ∷ 1 ∷ 2 ∷ 3 ∷ 4 ∷ 5 ∷ 6 ∷ 7 ∷ 8 ∷ 9 ∷ 10 ∷ 11 ∷ 12 ∷ 13 ∷ 14 ∷ 15 ∷ []

abbrev hello_of : Bytes → Bytes → Hello
hello_of nonce proof = record {
  protocol_version = version;
  capabilities = 0;
  agent = [];
  nonce = nonce;
  proof = proof;
}

-- A Hello, and an Auth with the proof for the nonces of both sides.
abbrev arriving : Bytes
arriving =
    write_frame [] MsgTypes.hello 1 (write_hello (hello_of nonce [])) 0
    ++ write_frame [] MsgTypes.auth 2
        (write_hello
          (hello_of [] (auth_proof env.blake3 token nonce (generate_auth_token random) false)))
        0

abbrev start : Served World Bytes
start = record served { channel = record served.channel { sock = arriving } }

abbrev ping : Frame
ping = record {
  header = record { type = MsgTypes.ping; flags = 0; payload_len = 0; request_id = 3 };
  payload = [];
}

abbrev first : Session World Bytes
first = (begin env false 10 start).1

abbrev second : Session World Bytes
second = (serve_round env false false 7 random first).1

abbrev third : Session World Bytes
third = (serve_round env false false 7 random second).1

second_goes_on : (serve_round env false false 7 random first).0 ≡ true
unfolding wsldrive.Server.Session.served_by wsldrive.Server.Session.lift
    wsldrive.Server.Session.refuse wsldrive.Server.Session.send_empty
    wsldrive.Server.Session.hello_ack wsldrive.Server.Session.challenge
    wsldrive.Server.Session.greeted_by wsldrive.Server.Session.greet
    wsldrive.Server.Session.check_proof wsldrive.Server.Session.authenticate
    wsldrive.Server.Session.handle wsldrive.Server.Session.set_channel wsldrive.Server.Session.limit
    wsldrive.Server.Session.begin wsldrive.Server.Session.promoted wsldrive.Server.Session.joined
    wsldrive.Server.Session.handled wsldrive.Server.Session.is_timeout wsldrive.Server.Session.idle
    wsldrive.Server.Session.polled wsldrive.Server.Session.serve_round wsldrive.Channel.count_sent
    wsldrive.Channel.count_received wsldrive.Channel.set_receive_limits wsldrive.Channel.sent
    wsldrive.Channel.send wsldrive.Channel.send_raw wsldrive.Channel.send_with
    wsldrive.Channel.received wsldrive.Channel.receive_payload wsldrive.Channel.receive_header
    wsldrive.Channel.receive wsldrive.Channel.waited wsldrive.Channel.receive_within
    wsldrive.Protocol.Header.encode_header wsldrive.Protocol.Header.get_le_at
    wsldrive.Protocol.Header.decode_fields wsldrive.Protocol.Header.decode_header
    wsldrive.Protocol.Header.frame_header wsldrive.Protocol.Header.write_frame
    wsldrive.Protocol.Writer.put_le_from wsldrive.Protocol.Writer.put_le wsldrive.Protocol.Writer.u8
    wsldrive.Protocol.Writer.u16 wsldrive.Protocol.Writer.u32 wsldrive.Protocol.Writer.u64
    wsldrive.Protocol.Writer.i64 wsldrive.Protocol.Writer.varint_loop
    wsldrive.Protocol.Writer.varint wsldrive.Protocol.Writer.raw wsldrive.Protocol.Writer.string
    wsldrive.Protocol.Writer.blob wsldrive.Protocol.Writer.patch_u32 wsldrive.Protocol.Reader.pure
    wsldrive.Protocol.Reader.◌>>=◌ wsldrive.Protocol.Reader.check wsldrive.Protocol.Reader.◌>>◌
    wsldrive.Protocol.Reader.remaining wsldrive.Protocol.Reader.get_le_from
    wsldrive.Protocol.Reader.get_le wsldrive.Protocol.Reader.raw wsldrive.Protocol.Reader.u8
    wsldrive.Protocol.Reader.fixed wsldrive.Protocol.Reader.u16 wsldrive.Protocol.Reader.u32
    wsldrive.Protocol.Reader.u64 wsldrive.Protocol.Reader.i64 wsldrive.Protocol.Reader.varint_loop
    wsldrive.Protocol.Reader.varint wsldrive.Protocol.Reader.string wsldrive.Protocol.Reader.blob
    wsldrive.Auth.decimal_loop wsldrive.Auth.to_string wsldrive.Auth.feed wsldrive.Auth.domain
    wsldrive.Auth.direction wsldrive.Auth.transcript wsldrive.Auth.auth_proof
    wsldrive.Auth.generate_auth_token wsldrive.Auth.diff_loop wsldrive.Auth.constant_time_equal
    wsldrive.Hash.hex_digit wsldrive.Hash.hex wsldrive.Protocol.Messages.write_hello
    wsldrive.Protocol.Messages.read_hello wsldrive.Server.Files.replied wsldrive.Server.Files.reply
    wsldrive.Server.Files.send_error wsldrive.Protocol.Requests.write_error wsldrive.Types.errc_code
    wsldrive.Prelude.Lists.bytes_eq
second_goes_on = refl

second_out : second.authed ≡ false
unfolding wsldrive.Server.Session.served_by wsldrive.Server.Session.lift
    wsldrive.Server.Session.refuse wsldrive.Server.Session.send_empty
    wsldrive.Server.Session.hello_ack wsldrive.Server.Session.challenge
    wsldrive.Server.Session.greeted_by wsldrive.Server.Session.greet
    wsldrive.Server.Session.check_proof wsldrive.Server.Session.authenticate
    wsldrive.Server.Session.handle wsldrive.Server.Session.set_channel wsldrive.Server.Session.limit
    wsldrive.Server.Session.begin wsldrive.Server.Session.promoted wsldrive.Server.Session.joined
    wsldrive.Server.Session.handled wsldrive.Server.Session.is_timeout wsldrive.Server.Session.idle
    wsldrive.Server.Session.polled wsldrive.Server.Session.serve_round wsldrive.Channel.count_sent
    wsldrive.Channel.count_received wsldrive.Channel.set_receive_limits wsldrive.Channel.sent
    wsldrive.Channel.send wsldrive.Channel.send_raw wsldrive.Channel.send_with
    wsldrive.Channel.received wsldrive.Channel.receive_payload wsldrive.Channel.receive_header
    wsldrive.Channel.receive wsldrive.Channel.waited wsldrive.Channel.receive_within
    wsldrive.Protocol.Header.encode_header wsldrive.Protocol.Header.get_le_at
    wsldrive.Protocol.Header.decode_fields wsldrive.Protocol.Header.decode_header
    wsldrive.Protocol.Header.frame_header wsldrive.Protocol.Header.write_frame
    wsldrive.Protocol.Writer.put_le_from wsldrive.Protocol.Writer.put_le wsldrive.Protocol.Writer.u8
    wsldrive.Protocol.Writer.u16 wsldrive.Protocol.Writer.u32 wsldrive.Protocol.Writer.u64
    wsldrive.Protocol.Writer.i64 wsldrive.Protocol.Writer.varint_loop
    wsldrive.Protocol.Writer.varint wsldrive.Protocol.Writer.raw wsldrive.Protocol.Writer.string
    wsldrive.Protocol.Writer.blob wsldrive.Protocol.Writer.patch_u32 wsldrive.Protocol.Reader.pure
    wsldrive.Protocol.Reader.◌>>=◌ wsldrive.Protocol.Reader.check wsldrive.Protocol.Reader.◌>>◌
    wsldrive.Protocol.Reader.remaining wsldrive.Protocol.Reader.get_le_from
    wsldrive.Protocol.Reader.get_le wsldrive.Protocol.Reader.raw wsldrive.Protocol.Reader.u8
    wsldrive.Protocol.Reader.fixed wsldrive.Protocol.Reader.u16 wsldrive.Protocol.Reader.u32
    wsldrive.Protocol.Reader.u64 wsldrive.Protocol.Reader.i64 wsldrive.Protocol.Reader.varint_loop
    wsldrive.Protocol.Reader.varint wsldrive.Protocol.Reader.string wsldrive.Protocol.Reader.blob
    wsldrive.Auth.decimal_loop wsldrive.Auth.to_string wsldrive.Auth.feed wsldrive.Auth.domain
    wsldrive.Auth.direction wsldrive.Auth.transcript wsldrive.Auth.auth_proof
    wsldrive.Auth.generate_auth_token wsldrive.Auth.diff_loop wsldrive.Auth.constant_time_equal
    wsldrive.Hash.hex_digit wsldrive.Hash.hex wsldrive.Protocol.Messages.write_hello
    wsldrive.Protocol.Messages.read_hello wsldrive.Server.Files.replied wsldrive.Server.Files.reply
    wsldrive.Server.Files.send_error wsldrive.Protocol.Requests.write_error wsldrive.Types.errc_code
    wsldrive.Prelude.Lists.bytes_eq
second_out = refl

third_goes_on : (serve_round env false false 7 random second).0 ≡ true
unfolding wsldrive.Server.Session.served_by wsldrive.Server.Session.lift
    wsldrive.Server.Session.refuse wsldrive.Server.Session.send_empty
    wsldrive.Server.Session.hello_ack wsldrive.Server.Session.challenge
    wsldrive.Server.Session.greeted_by wsldrive.Server.Session.greet
    wsldrive.Server.Session.check_proof wsldrive.Server.Session.authenticate
    wsldrive.Server.Session.handle wsldrive.Server.Session.set_channel wsldrive.Server.Session.limit
    wsldrive.Server.Session.begin wsldrive.Server.Session.promoted wsldrive.Server.Session.joined
    wsldrive.Server.Session.handled wsldrive.Server.Session.is_timeout wsldrive.Server.Session.idle
    wsldrive.Server.Session.polled wsldrive.Server.Session.serve_round wsldrive.Channel.count_sent
    wsldrive.Channel.count_received wsldrive.Channel.set_receive_limits wsldrive.Channel.sent
    wsldrive.Channel.send wsldrive.Channel.send_raw wsldrive.Channel.send_with
    wsldrive.Channel.received wsldrive.Channel.receive_payload wsldrive.Channel.receive_header
    wsldrive.Channel.receive wsldrive.Channel.waited wsldrive.Channel.receive_within
    wsldrive.Protocol.Header.encode_header wsldrive.Protocol.Header.get_le_at
    wsldrive.Protocol.Header.decode_fields wsldrive.Protocol.Header.decode_header
    wsldrive.Protocol.Header.frame_header wsldrive.Protocol.Header.write_frame
    wsldrive.Protocol.Writer.put_le_from wsldrive.Protocol.Writer.put_le wsldrive.Protocol.Writer.u8
    wsldrive.Protocol.Writer.u16 wsldrive.Protocol.Writer.u32 wsldrive.Protocol.Writer.u64
    wsldrive.Protocol.Writer.i64 wsldrive.Protocol.Writer.varint_loop
    wsldrive.Protocol.Writer.varint wsldrive.Protocol.Writer.raw wsldrive.Protocol.Writer.string
    wsldrive.Protocol.Writer.blob wsldrive.Protocol.Writer.patch_u32 wsldrive.Protocol.Reader.pure
    wsldrive.Protocol.Reader.◌>>=◌ wsldrive.Protocol.Reader.check wsldrive.Protocol.Reader.◌>>◌
    wsldrive.Protocol.Reader.remaining wsldrive.Protocol.Reader.get_le_from
    wsldrive.Protocol.Reader.get_le wsldrive.Protocol.Reader.raw wsldrive.Protocol.Reader.u8
    wsldrive.Protocol.Reader.fixed wsldrive.Protocol.Reader.u16 wsldrive.Protocol.Reader.u32
    wsldrive.Protocol.Reader.u64 wsldrive.Protocol.Reader.i64 wsldrive.Protocol.Reader.varint_loop
    wsldrive.Protocol.Reader.varint wsldrive.Protocol.Reader.string wsldrive.Protocol.Reader.blob
    wsldrive.Auth.decimal_loop wsldrive.Auth.to_string wsldrive.Auth.feed wsldrive.Auth.domain
    wsldrive.Auth.direction wsldrive.Auth.transcript wsldrive.Auth.auth_proof
    wsldrive.Auth.generate_auth_token wsldrive.Auth.diff_loop wsldrive.Auth.constant_time_equal
    wsldrive.Hash.hex_digit wsldrive.Hash.hex wsldrive.Protocol.Messages.write_hello
    wsldrive.Protocol.Messages.read_hello wsldrive.Server.Files.replied wsldrive.Server.Files.reply
    wsldrive.Server.Files.send_error wsldrive.Protocol.Requests.write_error wsldrive.Types.errc_code
    wsldrive.Prelude.Lists.bytes_eq
third_goes_on = refl

third_authed : third.authed ≡ true
unfolding wsldrive.Server.Session.served_by wsldrive.Server.Session.lift
    wsldrive.Server.Session.refuse wsldrive.Server.Session.send_empty
    wsldrive.Server.Session.hello_ack wsldrive.Server.Session.challenge
    wsldrive.Server.Session.greeted_by wsldrive.Server.Session.greet
    wsldrive.Server.Session.check_proof wsldrive.Server.Session.authenticate
    wsldrive.Server.Session.handle wsldrive.Server.Session.set_channel wsldrive.Server.Session.limit
    wsldrive.Server.Session.begin wsldrive.Server.Session.promoted wsldrive.Server.Session.joined
    wsldrive.Server.Session.handled wsldrive.Server.Session.is_timeout wsldrive.Server.Session.idle
    wsldrive.Server.Session.polled wsldrive.Server.Session.serve_round wsldrive.Channel.count_sent
    wsldrive.Channel.count_received wsldrive.Channel.set_receive_limits wsldrive.Channel.sent
    wsldrive.Channel.send wsldrive.Channel.send_raw wsldrive.Channel.send_with
    wsldrive.Channel.received wsldrive.Channel.receive_payload wsldrive.Channel.receive_header
    wsldrive.Channel.receive wsldrive.Channel.waited wsldrive.Channel.receive_within
    wsldrive.Protocol.Header.encode_header wsldrive.Protocol.Header.get_le_at
    wsldrive.Protocol.Header.decode_fields wsldrive.Protocol.Header.decode_header
    wsldrive.Protocol.Header.frame_header wsldrive.Protocol.Header.write_frame
    wsldrive.Protocol.Writer.put_le_from wsldrive.Protocol.Writer.put_le wsldrive.Protocol.Writer.u8
    wsldrive.Protocol.Writer.u16 wsldrive.Protocol.Writer.u32 wsldrive.Protocol.Writer.u64
    wsldrive.Protocol.Writer.i64 wsldrive.Protocol.Writer.varint_loop
    wsldrive.Protocol.Writer.varint wsldrive.Protocol.Writer.raw wsldrive.Protocol.Writer.string
    wsldrive.Protocol.Writer.blob wsldrive.Protocol.Writer.patch_u32 wsldrive.Protocol.Reader.pure
    wsldrive.Protocol.Reader.◌>>=◌ wsldrive.Protocol.Reader.check wsldrive.Protocol.Reader.◌>>◌
    wsldrive.Protocol.Reader.remaining wsldrive.Protocol.Reader.get_le_from
    wsldrive.Protocol.Reader.get_le wsldrive.Protocol.Reader.raw wsldrive.Protocol.Reader.u8
    wsldrive.Protocol.Reader.fixed wsldrive.Protocol.Reader.u16 wsldrive.Protocol.Reader.u32
    wsldrive.Protocol.Reader.u64 wsldrive.Protocol.Reader.i64 wsldrive.Protocol.Reader.varint_loop
    wsldrive.Protocol.Reader.varint wsldrive.Protocol.Reader.string wsldrive.Protocol.Reader.blob
    wsldrive.Auth.decimal_loop wsldrive.Auth.to_string wsldrive.Auth.feed wsldrive.Auth.domain
    wsldrive.Auth.direction wsldrive.Auth.transcript wsldrive.Auth.auth_proof
    wsldrive.Auth.generate_auth_token wsldrive.Auth.diff_loop wsldrive.Auth.constant_time_equal
    wsldrive.Hash.hex_digit wsldrive.Hash.hex wsldrive.Protocol.Messages.write_hello
    wsldrive.Protocol.Messages.read_hello wsldrive.Server.Files.replied wsldrive.Server.Files.reply
    wsldrive.Server.Files.send_error wsldrive.Protocol.Requests.write_error wsldrive.Types.errc_code
    wsldrive.Prelude.Lists.bytes_eq
third_authed = refl

third_reached : Reach env third
third_reached =
    goes_on false false 7 random second
      (goes_on false false 7 random first (begun 10 start) second_goes_on) third_goes_on

Reach-IsServing_example : IsServing env third
Reach-IsServing_example = Reach-IsServing env third_reached

Reach-authed_example : (null token ≡ true) ⊎ WasProven env third_reached
Reach-authed_example = Reach-authed env third_reached third_authed

handle-IsGated_example : IsGated env ping second (handle env 7 random ping second)
handle-IsGated_example = handle-IsGated env 7 random ping second second_out
