-- ===== src/Server/Session/Gate.antt =====
-- What a session that is not authenticated can do, and how it becomes authenticated.
use wsldrive.Prelude.{ℕ, ◌≡◌, refl, ◌∙◌, Bool, false, not, ◌&&◌, Bytes, null, ◌==◌, if_elim, arith}
use wsldrive.Types.{Errc, Result, ok, err, unauthorized}
use wsldrive.Auth.{auth_proof, constant_time_equal, generate_auth_token}
use wsldrive.Protocol.Header.{version}
use wsldrive.Protocol.MsgTypes
use wsldrive.Protocol.Messages.{Hello}
use wsldrive.Channel.{Frame}
use wsldrive.Server.Files.{replied, reply, send_error}
use wsldrive.Server.Session.{
  Session, Setting, served_by, lift, refuse, send_empty, hello_ack, challenge, greeted_by, greet,
  check_proof, authenticate, handle,
}

module _ {W S : Type 0} (env : Setting W S) where
  -- A turn that leaves the disk alone, and what the session knows of the peer.
  pub record IsQuiet (s t : Session W S) : Type 0 where
    pub world : t.served.world ≡ s.served.world
    pub authed : t.authed ≡ s.authed
    pub hs : t.hs ≡ s.hs

  pub refuse-IsQuiet :
      (id : ℕ) (code : Errc) (detail : Bytes) (s : Session W S)
      → IsQuiet s (refuse env id code detail s).1
  unfolding refuse lift served_by send_error reply replied
  refuse-IsQuiet id code detail s = record { world = refl; authed = refl; hs = refl }

  -- A turn that leaves the disk alone and is refused for the other types.
  pub record IsGated (f : Frame) (s : Session W S) (r : Result (Unit {0}) × Session W S)
      : Type 0 where
    pub untouched : r.1.served.world ≡ s.served.world
    pub refused :
        (f.header.type == MsgTypes.hello) ≡ false
        → (f.header.type == MsgTypes.auth) ≡ false
        → (r.0 ≡ err unauthorized) × (r.1.authed ≡ false)

  abbrev Untouched : Session W S → Result (Unit {0}) × Session W S → Type 0
  Untouched s r = r.1.served.world ≡ s.served.world

  challenge-Untouched :
      (random : Bytes) (id : ℕ) (s : Session W S) → Untouched s (challenge env random id s)
  unfolding challenge lift served_by hello_ack reply replied refuse send_error
  challenge-Untouched random id s =
      if_elim (Untouched s) (null (generate_auth_token random)) _ _ (λ e. refl) (λ e. refl)

  greet-Untouched :
      (random : Bytes) (id : ℕ) (m : Result (Hello × Bytes)) (s : Session W S)
      → Untouched s (greet env random id m s)
  unfolding greet greeted_by lift served_by hello_ack reply replied refuse send_error
  greet-Untouched random id (err e) s = refl
  greet-Untouched random id (ok (hello, rest)) s =
      if_elim (Untouched s) (not (hello.protocol_version == version)) _ _ (λ e. refl)
        (λ e.
          if_elim (Untouched s) (null env.token) _ _ (λ e. refl)
            (λ e.
              if_elim (Untouched s) (null hello.nonce) _ _ (λ e. refl)
                (λ e. challenge-Untouched random id _)))

  authenticate-Untouched :
      (id : ℕ) (m : Result (Hello × Bytes)) (s : Session W S)
      → Untouched s (authenticate env id m s)
  unfolding authenticate check_proof lift served_by send_empty replied refuse send_error reply
  authenticate-Untouched id m s =
      if_elim (Untouched s) (not s.hs.greeted) _ _ (λ e. refl) (λ e. go m)
    where
      go : (m : Result (Hello × Bytes)) → Untouched s (check_proof env id m s)
      go (err e) = refl
      go (ok (msg, rest)) =
          if_elim (Untouched s)
            (not (
              constant_time_equal msg.proof
                (auth_proof env.blake3 env.token s.hs.client_nonce s.hs.server_nonce false)))
            _ _ (λ e. refl) (λ e. refl)

  -- The gate of `handle` is closed to all other types.
  closed :
      (hello auth authed : Bool)
      → hello ≡ false
      → auth ≡ false
      → authed ≡ false
      → ((not hello && not auth) && not authed) ≡ false
      → ⊥
  closed hello auth authed h a o e = ground arith

  -- Until a session is authenticated, a frame changes nothing on the disk, and unless it is a Hello
  -- or an Auth it is refused with Unauthorized and does not authenticate the session.
  pub handle-IsGated :
      (generation : ℕ) (random : Bytes) (f : Frame) (s : Session W S)
      → s.authed ≡ false
      → IsGated f s (handle env generation random f s)
  unfolding handle
  handle-IsGated generation random f s out = record {
    untouched =
        if_elim (Untouched s)
          ((not (f.header.type == MsgTypes.hello) && not (f.header.type == MsgTypes.auth))
            && not s.authed)
          _ _ (λ e. (refuse-IsQuiet _ _ _ s).world)
          (λ e.
            if_elim (Untouched s) (f.header.type == MsgTypes.hello) _ _
              (λ h. greet-Untouched random _ _ s)
              (λ h.
                if_elim (Untouched s) (f.header.type == MsgTypes.auth) _ _
                  (λ a. authenticate-Untouched _ _ s) (λ a. absurd (closed _ _ _ h a out e))));
    refused = λ h a.
        if_elim
          (λ (r : Result (Unit {0}) × Session W S). (r.0 ≡ err unauthorized) × (r.1.authed ≡ false))
          ((not (f.header.type == MsgTypes.hello) && not (f.header.type == MsgTypes.auth))
            && not s.authed)
          _ _ (λ e. (unfold refuse in refl, (refuse-IsQuiet _ _ _ s).authed ∙ out))
          (λ e. absurd (closed _ _ _ h a out e));
  }
