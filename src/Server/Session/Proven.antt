-- ===== src/Server/Session/Proven.antt =====
-- How a session becomes authenticated.
use wsldrive.Prelude.{
  not-false, ℕ, ◌≡◌, refl, sym, ◌∙◌, true, false, not, ◌&&◌, Bytes, bytes_eq_sound, null, ◌==◌,
  ==_iff, ◌⊎◌, inl, inr, if_elim,
}
use wsldrive.Types.{Errc, Result, ok, err}
use wsldrive.Auth.{auth_proof, constant_time_equal, generate_auth_token}
use wsldrive.Auth.Equal.{constant_time_equal-bytes_eq}
use wsldrive.Protocol.Header.{version}
use wsldrive.Protocol.MsgTypes
use wsldrive.Protocol.Messages.{Hello, read_hello}
use wsldrive.Channel.{Frame}
use wsldrive.Server.Files.{Action}
use wsldrive.Server.Session.{
  Session, Setting, served_by, lift, refuse, challenge, greeted_by, greet, check_proof,
  authenticate, handle,
}
use wsldrive.Server.Session.Gate.{refuse-IsQuiet}

-- A frame with the proof of the client, for the nonces of the session.
pub record IsProven {W S : Type 0} (env : Setting W S) (s : Session W S) (f : Frame) : Type 0 where
  pub is_auth : f.header.type ≡ MsgTypes.auth
  pub was_greeted : s.hs.greeted ≡ true
  pub message : Hello
  pub left : Bytes
  pub decodes : read_hello f.payload ≡ ok (message, left)
  pub proves :
      message.proof ≡ auth_proof env.blake3 env.token s.hs.client_nonce s.hs.server_nonce false

module _ {W S : Type 0} (env : Setting W S) where
  -- How a turn may end: the session is authenticated only if it was so before, if the server has no
  -- token, or by a proof.
  abbrev pub Entitled : Session W S → Frame → Type 0
  Entitled s f = (s.authed ≡ true) ⊎ ((null env.token ≡ true) ⊎ IsProven env s f)

  abbrev Justified : Session W S → Frame → Result (Unit {0}) × Session W S → Type 0
  Justified s f r = r.1.authed ≡ true → Entitled s f

  lift-Justified : (act : Action W S) (s : Session W S) (f : Frame) → Justified s f (lift env act s)
  unfolding lift served_by
  lift-Justified act s f h = inl h

  refuse-Justified :
      (id : ℕ) (code : Errc) (detail : Bytes) (s t : Session W S) (f : Frame)
      → t.authed ≡ s.authed
      → Justified s f (refuse env id code detail t)
  refuse-Justified id code detail s t f e h =
      inl (sym e ∙ (sym (refuse-IsQuiet env id code detail t).authed ∙ h))

  challenge-Justified :
      (random : Bytes) (id : ℕ) (s t : Session W S) (f : Frame)
      → t.authed ≡ s.authed
      → Justified s f (challenge env random id t)
  unfolding challenge lift served_by
  challenge-Justified random id s t f e =
      if_elim (Justified s f) (null (generate_auth_token random)) _ _
        (λ _. refuse-Justified id _ _ s _ f e) (λ _ h. inl (sym e ∙ h))

  greet-Justified :
      (random : Bytes) (id : ℕ) (m : Result (Hello × Bytes)) (s : Session W S) (f : Frame)
      → Justified s f (greet env random id m s)
  unfolding greet greeted_by
  greet-Justified random id (err e) s f = λ h. inl h
  greet-Justified random id (ok (hello, rest)) s f =
      if_elim (Justified s f) (not (hello.protocol_version == version)) _ _
        (λ _. refuse-Justified id _ _ s s f refl)
        (λ _.
          if_elim (Justified s f) (null env.token) _ _ (λ e h. inr (inl e))
            (λ _.
              if_elim (Justified s f) (null hello.nonce) _ _
                (λ _. refuse-Justified id _ _ s _ f refl)
                (λ _. challenge-Justified random id s _ f refl)))

  authenticate-Justified :
      (s : Session W S) (f : Frame)
      → f.header.type ≡ MsgTypes.auth
      → Justified s f (authenticate env f.header.request_id (read_hello f.payload) s)
  unfolding authenticate check_proof lift served_by
  authenticate-Justified s f is_auth =
      if_elim (Justified s f) (not s.hs.greeted) _ _ (λ _. refuse-Justified _ _ _ s s f refl)
        (λ e. go e (read_hello f.payload) refl)
    where
      go :
          not s.hs.greeted ≡ false
          → (m : Result (Hello × Bytes)) → read_hello f.payload ≡ m
          → Justified s f (check_proof env f.header.request_id m s)
      go e (err x) eq = λ h. inl h
      go e (ok (msg, rest)) eq =
          if_elim (Justified s f)
            (not (
              constant_time_equal msg.proof
                (auth_proof env.blake3 env.token s.hs.client_nonce s.hs.server_nonce false)))
            _ _ (λ _. refuse-Justified _ _ _ s s f refl)
            (λ same _. inr (
              inr (record {
                is_auth = is_auth;
                was_greeted = not-false s.hs.greeted e;
                message = msg;
                left = rest;
                decodes = eq;
                proves =
                    bytes_eq_sound _ _
                      (sym (constant_time_equal-bytes_eq msg.proof _) ∙ not-false _ same);
              })))

  -- A turn of handle that leaves a session authenticated found it so, or the server has no token, or
  -- the frame was an Auth, to a session that was greeted, with the proof of the client over the token
  -- of the server and both nonces of this session.
  pub handle-Entitled :
      (generation : ℕ) (random : Bytes) (f : Frame) (s : Session W S)
      → (handle env generation random f s).1.authed ≡ true
      → Entitled s f
  unfolding handle
  handle-Entitled generation random f s =
      if_elim (Justified s f)
        ((not (f.header.type == MsgTypes.hello) && not (f.header.type == MsgTypes.auth))
          && not s.authed)
        _ _ (λ e. refuse-Justified _ _ _ s s f refl)
        (λ e.
          if_elim (Justified s f) (f.header.type == MsgTypes.hello) _ _
            (λ h. greet-Justified random _ _ s f)
            (λ h.
              if_elim (Justified s f) (f.header.type == MsgTypes.auth) _ _
                (λ a. authenticate-Justified s f ((==_iff f.header.type MsgTypes.auth).0 a))
                (λ a. lift-Justified _ s f)))
