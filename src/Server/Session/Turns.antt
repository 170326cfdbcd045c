-- ===== src/Server/Session/Turns.antt =====
-- What a frame does to a session that goes on.
use wsldrive.Prelude.{
  ℕ, ◌≡◌, refl, ap, ◌∙◌, Bool, true, false, not, ◌&&◌, Bytes, null, ◌==◌, if_elim, arith,
}
use wsldrive.Types.{Errc, Result, ok, err}
use wsldrive.Auth.{auth_proof, constant_time_equal, generate_auth_token}
use wsldrive.Protocol.Header.{MsgType, version}
use wsldrive.Protocol.MsgTypes
use wsldrive.Protocol.Messages.{Hello}
use wsldrive.Channel.{Frame}
use wsldrive.Server.Files.{Served, Action, replied, reply, send_error}
use wsldrive.Server.Session.Limits.{send_with-Same}
use wsldrive.Server.Session.{
  Handshake, Session, Setting, served_by, lift, refuse, send_empty, hello_ack, challenge,
  greeted_by, greet, check_proof, authenticate, handle,
}

-- Once a session is greeted the server has a token, and the nonces that a proof is made of are there.
pub record IsNamed (token : Bytes) (hs : Handshake) : Type 0 where
  pub has_token : hs.greeted ≡ true → null token ≡ false
  pub has_client_nonce : hs.greeted ≡ true → null hs.client_nonce ≡ false
  pub has_server_nonce : hs.greeted ≡ true → null hs.server_nonce ≡ false

module _ {W S : Type 0} (env : Setting W S) where
  abbrev pub limit_of : Session W S → ℕ
  limit_of s = s.served.channel.payload_limit

  -- What a turn does that does not end the session.
  pub record IsTurn (s : Session W S) (r : Result (Unit {0}) × Session W S) : Type 0 where
    pub member : r.1.registered ≡ s.registered
    pub stays : s.authed ≡ true → r.1.authed ≡ true
    pub small : r.1.authed ≡ false → limit_of r.1 ≡ limit_of s
    pub named : r.0 ≡ ok tt → IsNamed env.token s.hs → IsNamed env.token r.1.hs

  abbrev Keeps : Session W S → Served W S → Type 0
  Keeps s t = t.channel.payload_limit ≡ s.served.channel.payload_limit

  reply-Keeps :
      (type : MsgType) (id : ℕ) (payload : Bytes) (s : Session W S)
      → Keeps s (reply env.disk env.socket type id payload s.served).1
  unfolding reply replied
  reply-Keeps type id payload s = send_with-Same env.socket type id payload s.served.channel

  refuse-IsTurn :
      (id : ℕ) (code : Errc) (detail : Bytes) (s t : Session W S)
      → t.registered ≡ s.registered
      → t.authed ≡ s.authed
      → t.served ≡ s.served
      → IsTurn s (refuse env id code detail t)
  unfolding refuse lift served_by send_error
  refuse-IsTurn id code detail s t r a v = record {
    member = r;
    stays = λ e. a ∙ e;
    small =
        λ e. reply-Keeps MsgTypes.error id _ t ∙ ap (λ (x : Served W S). x.channel.payload_limit) v;
    named = λ e. absurd (cc);
  }

  -- The answer to a Hello, from a session that differs in what it knows of the peer.
  hello_ack-IsTurn :
      (id : ℕ) (nonce proof : Bytes) (s t : Session W S)
      → t.registered ≡ s.registered
      → (s.authed ≡ true → t.authed ≡ true)
      → t.served ≡ s.served
      → (IsNamed env.token s.hs → IsNamed env.token t.hs)
      → IsTurn s (lift env (hello_ack env id nonce proof) t)
  unfolding lift served_by hello_ack
  hello_ack-IsTurn id nonce proof s t r a v n = record {
    member = r;
    stays = a;
    small = λ e.
        reply-Keeps MsgTypes.hello_ack id _ t ∙ ap (λ (x : Served W S). x.channel.payload_limit) v;
    named = λ e k. n k;
  }

  challenge-IsTurn :
      (random : Bytes) (id : ℕ) (s t : Session W S)
      → t.registered ≡ s.registered
      → t.authed ≡ s.authed
      → t.served ≡ s.served
      → null env.token ≡ false
      → null t.hs.client_nonce ≡ false
      → IsTurn s (challenge env random id t)
  unfolding challenge
  challenge-IsTurn random id s t r a v k given =
      if_elim (λ (x : Result (Unit {0}) × Session W S). IsTurn s x)
        (null (generate_auth_token random)) _ _ (λ e. refuse-IsTurn id _ _ s _ r a v)
        (λ e.
          hello_ack-IsTurn id _ _ s _ r (λ h. a ∙ h) v
            (λ n. record {
              has_token = λ g. k;
              has_client_nonce = λ g. given;
              has_server_nonce = λ g. e;
            }))

  failed-IsTurn : (e : Errc) (s : Session W S) → IsTurn s (err e, s)
  failed-IsTurn e s = record {
    member = refl;
    stays = λ h. h;
    small = λ h. refl;
    named = λ h. absurd (cc);
  }

  opened :
      {hs : Handshake} (nonce : Bytes)
      → IsNamed env.token hs
      → null env.token ≡ true
      → IsNamed env.token (record hs { client_nonce = nonce })
  opened nonce n k = record {
    has_token = n.has_token;
    has_client_nonce = λ g. absurd (let h = n.has_token g in cc);
    has_server_nonce = n.has_server_nonce;
  }

  greet-IsTurn :
      (random : Bytes) (id : ℕ) (m : Result (Hello × Bytes)) (s : Session W S)
      → IsTurn s (greet env random id m s)
  unfolding greet greeted_by
  greet-IsTurn random id (err e) s = failed-IsTurn e s
  greet-IsTurn random id (ok (hello, rest)) s =
      if_elim (λ (x : Result (Unit {0}) × Session W S). IsTurn s x)
        (not (hello.protocol_version == version)) _ _ (λ e. refuse-IsTurn id _ _ s s refl refl refl)
        (λ e.
          if_elim (λ (x : Result (Unit {0}) × Session W S). IsTurn s x) (null env.token) _ _
            (λ k. hello_ack-IsTurn id _ _ s _ refl (λ _. refl) refl (λ n. opened hello.nonce n k))
            (λ k.
              if_elim (λ (x : Result (Unit {0}) × Session W S). IsTurn s x) (null hello.nonce) _ _
                (λ n. refuse-IsTurn id _ _ s _ refl refl refl)
                (λ n. challenge-IsTurn random id s _ refl refl refl k n)))

  authenticate-IsTurn :
      (id : ℕ) (m : Result (Hello × Bytes)) (s : Session W S) → IsTurn s (authenticate env id m s)
  unfolding authenticate check_proof lift served_by send_empty replied
  authenticate-IsTurn id m s =
      if_elim (λ (x : Result (Unit {0}) × Session W S). IsTurn s x) (not s.hs.greeted) _ _
        (λ e. refuse-IsTurn id _ _ s s refl refl refl) (λ e. go m)
    where
      go : (m : Result (Hello × Bytes)) → IsTurn s (check_proof env id m s)
      go (err e) = failed-IsTurn e s
      go (ok (msg, rest)) =
          if_elim (λ (x : Result (Unit {0}) × Session W S). IsTurn s x)
            (not (
              constant_time_equal msg.proof
                (auth_proof env.blake3 env.token s.hs.client_nonce s.hs.server_nonce false)))
            _ _ (λ e. refuse-IsTurn id _ _ s s refl refl refl)
            (λ e. record {
              member = refl;
              stays = λ h. refl;
              small = λ h. absurd (cc);
              named = λ h n. n;
            })

  -- A request of an authenticated session.
  lift-IsTurn : (act : Action W S) (s : Session W S) → s.authed ≡ true → IsTurn s (lift env act s)
  unfolding lift served_by
  lift-IsTurn act s e = record {
    member = refl;
    stays = λ h. h;
    small = λ h. absurd (cc);
    named = λ h n. n;
  }

  pub handle-IsTurn :
      (generation : ℕ) (random : Bytes) (f : Frame) (s : Session W S)
      → IsTurn s (handle env generation random f s)
  unfolding handle
  handle-IsTurn generation random f s =
      if_elim (λ (x : Result (Unit {0}) × Session W S). IsTurn s x)
        ((not (f.header.type == MsgTypes.hello) && not (f.header.type == MsgTypes.auth))
          && not s.authed)
        _ _ (λ e. refuse-IsTurn _ _ _ s s refl refl refl)
        (λ e.
          if_elim (λ (x : Result (Unit {0}) × Session W S). IsTurn s x)
            (f.header.type == MsgTypes.hello) _ _ (λ h. greet-IsTurn random _ _ s)
            (λ h.
              if_elim (λ (x : Result (Unit {0}) × Session W S). IsTurn s x)
                (f.header.type == MsgTypes.auth) _ _ (λ a. authenticate-IsTurn _ _ s)
                (λ a. lift-IsTurn _ s (through _ _ s.authed h a e))))
    where
      through :
          (hello auth authed : Bool)
          → hello ≡ false
          → auth ≡ false
          → ((not hello && not auth) && not authed) ≡ false
          → authed ≡ true
      through hello auth authed h a e = ground arith
