-- ===== src/Server/Session.antt =====
-- src/agent/server.cpp, `handle` and `serve`: the authentication of a session, and its loop. `blake3`
-- is the hash of the proofs, `agent` the text that the build generates, `random` the bytes that the
-- operating system gives for a nonce, and `send_snapshot` the handler of snapshot requests, which
-- stands in Server/Snapshots.antt.
pub mod Gate
pub mod Proven
pub mod Limits
pub mod Turns
pub mod Reach
pub mod Authenticated
use wsldrive.Prelude.{
  ℕ, ◌+◌, Bool, true, false, not, ◌&&◌, ◌||◌, [], ◌∷◌, Bytes, null, ltb, leb, ◌==◌, if◌then◌else◌,
}
use wsldrive.Types.{
  Errc, Result, ok, err, unauthorized, unsupported_version, io_error, timeout, protocol_error,
}
use wsldrive.Disk.{Disk}
use wsldrive.Auth.{auth_proof, constant_time_equal, generate_auth_token}
use wsldrive.Protocol.Header.{MsgType, version, max_payload}
use wsldrive.Protocol.MsgTypes
use wsldrive.Protocol.Messages.{Hello, write_hello, read_hello}
use wsldrive.Channel.{Socket, Frame, FrameChannel, send, receive_within, set_receive_limits}
use wsldrive.Server.Files.{Served, Action, replied, reply, send_error, handle_mutation}
use wsldrive.Server.Reads.{send_read, send_read_many, send_readlink}
use wsldrive.Server.Texts.{
  authenticate_first, version_mismatch, authentication_failed, no_entropy, auth_before_hello,
  unexpected_type, handshake_timeout,
}

pub record Handshake : Type 0 where
  pub greeted : Bool
  pub client_nonce : Bytes
  pub server_nonce : Bytes

-- `authed`, `hs` and `registered` of `serve`.
pub record Session (W S : Type 0) : Type 0 where
  pub served : Served W S
  pub authed : Bool
  pub hs : Handshake
  pub registered : Bool

-- What a session takes from the server and its surroundings.
pub record Setting (W S : Type 0) : Type 0 where
  pub disk : Disk W
  pub socket : Socket S
  pub blake3 : Bytes → Bytes
  pub agent : Bytes
  pub root : Bytes
  pub token : Bytes
  pub watching : Bool
  pub send_snapshot : ℕ → Action W S

abbrev pub pre_auth_max_payload : ℕ
pre_auth_max_payload = 4096

unfoldable pub is_mutation : MsgType → Bool
is_mutation type =
    (type == MsgTypes.write_request)
    || ((type == MsgTypes.create_request)
        || ((type == MsgTypes.mkdir_request)
            || ((type == MsgTypes.unlink_request)
                || ((type == MsgTypes.rmdir_request)
                    || ((type == MsgTypes.rename_request)
                        || (type == MsgTypes.truncate_request))))))

module _ {W S : Type 0} (env : Setting W S) where
  abbrev pub Turn : Type 0
  Turn = Session W S → Result (Unit {0}) × Session W S

  unfoldable pub served_by :
      Session W S → Result (Unit {0}) × Served W S → Result (Unit {0}) × Session W S
  served_by s (r, after) = (r, record s { served = after })

  unfoldable pub lift : Action W S → Turn
  lift act s = served_by s (act s.served)

  -- `(void)send_error(…); return fail(code);`
  unfoldable pub refuse : ℕ → Errc → Bytes → Turn
  refuse id code detail s = (err code, (lift (send_error env.disk env.socket id code detail) s).1)

  -- `ch.send(type, id, {})`
  unfoldable pub send_empty : MsgType → ℕ → Action W S
  send_empty type id s = replied env.disk env.socket s (send env.socket type id [] 0 s.channel)

  unfoldable pub hello_ack : ℕ → Bytes → Bytes → Action W S
  hello_ack id nonce proof = reply env.disk env.socket MsgTypes.hello_ack id (
      write_hello (record {
        protocol_version = version;
        capabilities = if env.watching then 1 else 0;
        agent = env.agent;
        nonce = nonce;
        proof = proof;
      }))

  -- With a token: the answer carries a nonce and the proof of the server.
  unfoldable pub challenge : Bytes → ℕ → Turn
  challenge random id s =
      let nonce = generate_auth_token random in
      let named = record s { hs = record s.hs { server_nonce = nonce } } in
      let proof = auth_proof env.blake3 env.token s.hs.client_nonce nonce true in
      if null nonce
      then refuse id io_error no_entropy named
      else lift (hello_ack id nonce proof)
          (record named { hs = record named.hs { greeted = true } })

  unfoldable pub greeted_by : Bytes → ℕ → Turn
  greeted_by random id s =
      if null env.token
      then lift (hello_ack id [] []) (record s { authed = true })
      else if null s.hs.client_nonce
      then refuse id unauthorized authentication_failed s
      else challenge random id s

  unfoldable pub greet : Bytes → ℕ → Result (Hello × Bytes) → Turn
  greet random id (err e) s = (err e, s)
  greet random id (ok (hello, rest)) s =
      if not (hello.protocol_version == version)
      then refuse id unsupported_version version_mismatch s
      else greeted_by random id (record s { hs = record s.hs { client_nonce = hello.nonce } })

  unfoldable pub check_proof : ℕ → Result (Hello × Bytes) → Turn
  check_proof id (err e) s = (err e, s)
  check_proof id (ok (msg, rest)) s =
      let expected = auth_proof env.blake3 env.token s.hs.client_nonce s.hs.server_nonce false in
      if not (constant_time_equal msg.proof expected)
      then refuse id unauthorized authentication_failed s
      else lift (send_empty MsgTypes.success id) (record s { authed = true })

  unfoldable pub authenticate : ℕ → Result (Hello × Bytes) → Turn
  authenticate id msg s =
      if not s.hs.greeted then refuse id unauthorized auth_before_hello s else check_proof id msg s

  -- The cases of `handle` behind the handshake.
  unfoldable pub serve_request : ℕ → Frame → Action W S
  serve_request generation f =
      let id = f.header.request_id in
      let type = f.header.type in
      if type == MsgTypes.ping
      then send_empty MsgTypes.pong id
      else if type == MsgTypes.snapshot_request
      then env.send_snapshot id
      else if type == MsgTypes.read_request
      then send_read env.disk env.socket env.root f
      else if type == MsgTypes.read_many_request
      then send_read_many env.disk env.socket env.root f
      else if type == MsgTypes.readlink_request
      then send_readlink env.disk env.socket env.root f
      else if is_mutation type
      then handle_mutation env.disk env.socket env.root generation f
      else send_error env.disk env.socket id protocol_error unexpected_type

  -- `generation` and `random` are what this call finds.
  unfoldable pub handle : ℕ → Bytes → Frame → Turn
  handle generation random f s =
      let id = f.header.request_id in
      let type = f.header.type in
      if (not (type == MsgTypes.hello) && not (type == MsgTypes.auth)) && not s.authed
      then refuse id unauthorized authenticate_first s
      else if type == MsgTypes.hello
      then greet random id (read_hello f.payload) s
      else if type == MsgTypes.auth
      then authenticate id (read_hello f.payload) s
      else lift (serve_request generation f) s

  unfoldable pub set_channel : FrameChannel S → Session W S → Session W S
  set_channel ch s = record s { served = record s.served { channel = ch } }

  unfoldable pub limit : ℕ → ℕ → Session W S → Session W S
  limit payload frame_timeout s =
      set_channel (set_receive_limits env.socket payload frame_timeout s.served.channel) s

  -- The part of `serve` before its loop: false where the session is not served. A session joins the
  -- peers unless the server is stopping.
  unfoldable pub begin : Bool → ℕ → Served W S → Bool × Session W S
  begin stopping handshake s =
      let authed = null env.token in
      let fresh : Session W S = record {
        served = s;
        authed = authed;
        hs = record { greeted = false; client_nonce = []; server_nonce = [] };
        registered = authed && not stopping;
      } in
      if stopping
      then (false, record fresh { registered = false })
      else (true, if not authed then limit pre_auth_max_payload handshake fresh else fresh)

  -- A session that has become authenticated gets frames of full size, and then joins the peers.
  unfoldable pub promoted : Bool → Session W S → Session W S
  promoted was_authed s = if s.authed && not was_authed then limit max_payload 0 s else s

  unfoldable pub joined : Bool → Session W S → Bool × Session W S
  joined stopping s =
      if s.authed && not s.registered
      then (not stopping, record s { registered = not stopping })
      else (true, s)

  unfoldable pub handled : Bool → Bool → Result (Unit {0}) × Session W S → Bool × Session W S
  handled stopping was_authed (err e, s) = (false, s)
  handled stopping was_authed (ok u, s) = joined stopping (promoted was_authed s)

  unfoldable pub is_timeout : Errc → Bool
  is_timeout timeout = true
  is_timeout _ = false

  -- Nothing has arrived in this poll.
  unfoldable pub idle : Bool → Bool → Session W S → Bool × Session W S
  idle stopping late s =
      if stopping
      then (false, s)
      else if not s.authed && late
      then (false, (lift (send_error env.disk env.socket 0 timeout handshake_timeout) s).1)
      else (true, s)

  unfoldable pub polled : Bool → Bool → ℕ → Bytes → Session W S → Result Frame → Bool × Session W S
  polled stopping late generation random s (err e) =
      if is_timeout e then idle stopping late s else (false, s)
  polled stopping late generation random s (ok f) =
      handled stopping s.authed (handle generation random f s)

  -- A round of the loop of `serve`: false where it breaks. `late` is the test of the deadline.
  unfoldable pub serve_round : Bool → Bool → ℕ → Bytes → Session W S → Bool × Session W S
  serve_round stopping late generation random s =
      let (frame, ch) = receive_within env.socket 200 s.served.channel in
      polled stopping late generation random (set_channel ch s) frame
