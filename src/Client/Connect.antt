-- ===== src/Client/Connect.antt =====
-- src/agent/client.cpp, `connect`: the handshake by which client and agent prove to each other that
-- they know the token. `blake3` is the hash of the proofs, `agent` the text that the build generates and
-- `nonce` what `generate_auth_nonce` returns.
use wsldrive.Prelude.{
  ◌≡◌, ◌⊎◌, refl, sym, ◌∙◌, true, false, not, ◌&&◌, [], Bytes, bytes_eq_sound, null, ◌==◌,
  not-false, inl, inr, if◌then◌else◌, if_elim,
}
use wsldrive.Types.{Errc, Result, ok, err, unauthorized, io_error}
use wsldrive.Auth.{auth_proof, constant_time_equal}
use wsldrive.Auth.Equal.{constant_time_equal-bytes_eq}
use wsldrive.Protocol.Header.{MsgType, version}
use wsldrive.Protocol.MsgTypes
use wsldrive.Protocol.Messages.{Hello, write_hello, read_hello}
use wsldrive.Client.Requests.{Reply, decoded, payload_of}

unfoldable pub hello_in : Result Bytes → Result Hello
hello_in (err e) = err e
hello_in (ok payload) = elim (read_hello payload) [ err e ↦ err e | ok read ↦ ok read.0 ]

unfoldable pub ack_of : Result Reply → Result Hello
ack_of reply = hello_in (payload_of MsgTypes.hello_ack (decoded reply))

-- Callers only need the version and the capabilities.
unfoldable pub stripped : Hello → Hello
stripped ack = record ack { agent = []; nonce = []; proof = [] }

unfoldable pub finished : Hello → Result Reply → Result Hello
finished ack (err e) = err e
finished ack (ok p) =
    if not (p.type == MsgTypes.success) then err unauthorized else ok (stripped ack)

module _ {W : Type 0} (blake3 : Bytes → Bytes) (agent token : Bytes)
    (exchange : MsgType → Bytes → W → Result Reply × W) where
  unfoldable pub prove : Bytes → Hello → W → Result Hello × W
  prove client_nonce ack w =
      let (reply, after) =
        exchange MsgTypes.auth
          (write_hello (record {
            protocol_version = version;
            capabilities = 0;
            agent = [];
            nonce = [];
            proof = auth_proof blake3 token client_nonce ack.nonce false;
          }))
          w in
      (finished ack (decoded reply), after)

  -- The agent is checked before anything is proved to it.
  unfoldable pub check_agent : Bytes → Result Hello → W → Result Hello × W
  check_agent client_nonce (err e) w = (err e, w)
  check_agent client_nonce (ok ack) w =
      let expected = auth_proof blake3 token client_nonce ack.nonce true in
      if null token
      then (ok (stripped ack), w)
      else if not (constant_time_equal ack.proof expected)
      then (err unauthorized, w)
      else prove client_nonce ack w

  unfoldable pub own_nonce : Bytes → Bytes
  own_nonce nonce = if null token then [] else nonce

  unfoldable pub say_hello : Bytes → W → Result Reply × W
  say_hello nonce = exchange MsgTypes.hello (
      write_hello (record {
        protocol_version = version;
        capabilities = 0;
        agent = agent;
        nonce = own_nonce nonce;
        proof = [];
      }))

  unfoldable pub connect : Bytes → W → Result Hello × W
  connect nonce w =
      let (reply, after) = say_hello nonce w in
      if not (null token) && null (own_nonce nonce)
      then (err io_error, w)
      else check_agent (own_nonce nonce) (ack_of reply) after

  -- The reply to the hello has the agent's proof over both nonces, where there is a token.
  abbrev pub IsAgent : Bytes → W → Type 0
  IsAgent nonce w =
      (ack : Hello) × (ack_of (say_hello nonce w).0 ≡ ok ack)
      × ((null token ≡ true)
          ⊎ (ack.proof ≡ auth_proof blake3 token (own_nonce nonce) ack.nonce true))

  -- An error, after nothing was sent or only the hello.
  abbrev pub IsSilent : Bytes → W → Result Hello × W → Type 0
  IsSilent nonce w (r, after) =
      ((e : Errc) × (r ≡ err e)) × ((after ≡ w) ⊎ (after ≡ (say_hello nonce w).1))

  check_agent_cases :
      (nonce : Bytes) (w : W) (ack : Result Hello)
      → ack_of (say_hello nonce w).0 ≡ ack
      → IsAgent nonce w ⊎ IsSilent nonce w (check_agent (own_nonce nonce) ack (say_hello nonce w).1)
  unfolding check_agent
  check_agent_cases nonce w (err e) h = inr ((e, refl), inr refl)
  check_agent_cases nonce w (ok ack) h =
      let expected = auth_proof blake3 token (own_nonce nonce) ack.nonce true in
      let after = (say_hello nonce w).1 in
      if_elim (λ (r : Result Hello × W). IsAgent nonce w ⊎ IsSilent nonce w r) (null token)
        (ok (stripped ack), after)
        (if not (constant_time_equal ack.proof expected)
          then (err unauthorized, after)
          else prove (own_nonce nonce) ack after)
        (λ open_server. inl (ack, h, inl open_server))
        (λ _.
          if_elim (λ (r : Result Hello × W). IsAgent nonce w ⊎ IsSilent nonce w r)
            (not (constant_time_equal ack.proof expected)) (err unauthorized, after)
            (prove (own_nonce nonce) ack after) (λ _. inr ((unauthorized, refl), inr refl))
            (λ same. inl (
              ack,
              h,
              inr (
                  bytes_eq_sound ack.proof expected (
                    sym (constant_time_equal-bytes_eq ack.proof expected)
                    ∙ not-false (constant_time_equal ack.proof expected) same)),
            )))

  -- A client proves itself only to an agent whose reply to the hello has the proof over both nonces,
  -- where there is a token; otherwise connect fails with nothing but the hello sent.
  pub connect_cases : (nonce : Bytes) (w : W) → IsAgent nonce w ⊎ IsSilent nonce w (connect nonce w)
  unfolding connect
  connect_cases nonce w =
      if_elim (λ (r : Result Hello × W). IsAgent nonce w ⊎ IsSilent nonce w r)
        (not (null token) && null (own_nonce nonce)) (err io_error, w)
        (check_agent (own_nonce nonce) (ack_of (say_hello nonce w).0) (say_hello nonce w).1)
        (λ _. inr ((io_error, refl), inl refl))
        (λ _. check_agent_cases nonce w (ack_of (say_hello nonce w).0) refl)
