-- ===== src/Server/Session/Reach.antt =====
-- The states that a session goes through while it is served.
use wsldrive.Prelude.{
  ℕ, ◌≡◌, refl, sym, ◌∙◌, Bool, true, false, not, not-false, ◌&&◌, &&_iff, [], Bytes, null, inl,
  inr, Bool-cases, if_elim,
}
use wsldrive.Types.{Result, ok, err}
use wsldrive.Channel.{Frame, set_receive_limits}
use wsldrive.Server.Files.{Served}
use wsldrive.Server.Session.Limits.{receive_within-Same}
use wsldrive.Server.Session.Turns.{IsNamed, IsTurn, handle-IsTurn}
use wsldrive.Server.Session.{
  Session, Setting, set_channel, limit, begin, promoted, joined, handled, idle, polled, serve_round,
  pre_auth_max_payload, is_timeout,
}

module _ {W S : Type 0} (env : Setting W S) where
  -- A session that is served: it is among the peers exactly when it is authenticated, and until then
  -- its frames are small.
  pub record IsServing (s : Session W S) : Type 0 where
    pub member : s.registered ≡ s.authed
    pub guarded : s.authed ≡ false → s.served.channel.payload_limit ≡ pre_auth_max_payload
    pub named : IsNamed env.token s.hs
    pub opened : null env.token ≡ true → s.authed ≡ true

  -- The states at the start of the loop of `serve`, over all polls, frames and times.
  pub data Reach : Session W S → Type 0 where
    begun : (handshake : ℕ) (s : Served W S) → Reach ((begin env false handshake s).1)
    goes_on :
        (stopping late : Bool) (generation : ℕ) (random : Bytes) (s : Session W S)
        → Reach s
        → (serve_round env stopping late generation random s).0 ≡ true
        → Reach ((serve_round env stopping late generation random s).1)

  abbrev Serves : Bool × Session W S → Type 0
  Serves r = r.0 ≡ true → IsServing r.1

  begin-IsServing : (handshake : ℕ) (s : Served W S) → IsServing (begin env false handshake s).1
  unfolding begin limit set_channel set_receive_limits
  begin-IsServing handshake s =
      if_elim (λ (t : Session W S). IsServing t) (not (null env.token)) _ _
        (λ e. record {
          member = both (null env.token);
          guarded = λ _. refl;
          named = unnamed;
          opened = λ h. h;
        })
        (λ e. record {
          member = both (null env.token);
          guarded = λ h. absurd (let k = not-false (null env.token) e in cc);
          named = unnamed;
          opened = λ h. h;
        })
    where
      both : (b : Bool) → (b && true) ≡ b
      both true = refl
      both false = refl

      unnamed : IsNamed env.token (record { greeted = false; client_nonce = []; server_nonce = [] })
      unnamed = record {
        has_token = λ h. absurd (cc);
        has_client_nonce = λ h. absurd (cc);
        has_server_nonce = λ h. absurd (cc);
      }

  -- What a session has before it joins the peers.
  record IsFit (s : Session W S) : Type 0 where
    outside : s.authed ≡ false → s.registered ≡ false
    guarded : s.authed ≡ false → s.served.channel.payload_limit ≡ pre_auth_max_payload
    named : IsNamed env.token s.hs
    opened : null env.token ≡ true → s.authed ≡ true

  joined-Serves : (stopping : Bool) (s : Session W S) → IsFit s → Serves (joined env stopping s)
  unfolding joined
  joined-Serves stopping s h =
      if_elim Serves (s.authed && not s.registered) _ _
        (λ e go. record {
          member = go ∙ sym (((&&_iff s.authed (not s.registered)).0 e).0);
          guarded = h.guarded;
          named = h.named;
          opened = h.opened;
        })
        (λ e go. record {
          member = same s.authed s.registered h.outside e;
          guarded = h.guarded;
          named = h.named;
          opened = h.opened;
        })
    where
      same :
          (authed registered : Bool)
          → (authed ≡ false → registered ≡ false)
          → (authed && not registered) ≡ false
          → registered ≡ authed
      same true true f e = refl
      same true false f e = absurd (cc)
      same false registered f e = f refl

  promoted-IsFit :
      (was_authed : Bool) (s : Session W S) → IsFit s → IsFit (promoted env was_authed s)
  unfolding promoted limit set_channel
  promoted-IsFit was_authed s h =
      if_elim (λ (t : Session W S). IsFit t) (s.authed && not was_authed) _ _
        (λ e. record {
          outside = h.outside;
          guarded = λ k. absurd (let a = ((&&_iff s.authed (not was_authed)).0 e).0 in cc);
          named = h.named;
          opened = h.opened;
        })
        (λ e. h)

  turn-IsFit :
      (s : Session W S) (u : Unit {0}) (t : Session W S)
      → IsServing s
      → IsTurn env s (ok u, t)
      → IsFit t
  turn-IsFit s u t h k = record {
    outside = λ e. k.member ∙ (h.member ∙ was_out e);
    guarded = λ e. k.small e ∙ h.guarded (was_out e);
    named = k.named refl h.named;
    opened = λ e. k.stays (h.opened e);
  }
    where
      was_out : t.authed ≡ false → s.authed ≡ false
      was_out e = elim (Bool-cases s.authed) [
        | inl a ↦ absurd (let b = k.stays a in cc)
        | inr a ↦ a
      ]

  handled-Serves :
      (stopping : Bool) (s : Session W S) (r : Result (Unit {0}) × Session W S)
      → IsServing s
      → IsTurn env s r
      → Serves (handled env stopping s.authed r)
  unfolding handled
  handled-Serves stopping s (err e, t) h k = λ go. absurd (cc)
  handled-Serves stopping s (ok u, t) h k =
      joined-Serves stopping _ (promoted-IsFit s.authed t (turn-IsFit s u t h k))

  idle-Serves :
      (stopping late : Bool) (s : Session W S) → IsServing s → Serves (idle env stopping late s)
  unfolding idle
  idle-Serves stopping late s h =
      if_elim Serves stopping _ _ (λ e go. absurd (cc))
        (λ e. if_elim Serves (not s.authed && late) _ _ (λ f go. absurd (cc)) (λ f go. h))

  polled-Serves :
      (stopping late : Bool) (generation : ℕ) (random : Bytes) (s : Session W S) (r : Result Frame)
      → IsServing s
      → Serves (polled env stopping late generation random s r)
  unfolding polled
  polled-Serves stopping late generation random s (err e) h =
      if_elim Serves (is_timeout env e) _ _ (λ f. idle-Serves stopping late s h)
        (λ f go. absurd (cc))
  polled-Serves stopping late generation random s (ok f) h =
      handled-Serves stopping s _ h (handle-IsTurn env generation random f s)

  serve_round-Serves :
      (stopping late : Bool) (generation : ℕ) (random : Bytes) (s : Session W S)
      → IsServing s
      → Serves (serve_round env stopping late generation random s)
  unfolding serve_round set_channel
  serve_round-Serves stopping late generation random s h =
      polled-Serves stopping late generation random _ _ (record {
        member = h.member;
        guarded = λ e. receive_within-Same env.socket 200 s.served.channel ∙ h.guarded e;
        named = h.named;
        opened = h.opened;
      })

  -- In every state that a served session goes through, it receives invalidations exactly if it is
  -- authenticated, until then a frame of more than 4096 bytes is refused, and once it is greeted the
  -- server has a token and both nonces are there.
  pub Reach-IsServing : {s : Session W S} → Reach s → IsServing s
  Reach-IsServing (begun handshake s) = begin-IsServing handshake s
  Reach-IsServing (goes_on stopping late generation random s r go) =
      serve_round-Serves stopping late generation random s (Reach-IsServing r) go
