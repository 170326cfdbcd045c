-- ===== src/Server/Session/Authenticated.antt =====
-- A served session is authenticated by a proof.
use wsldrive.Prelude.{
  ℕ, ◌≡◌, refl, sym, ◌∙◌, Bool, true, false, not, ◌&&◌, Bytes, null, ◌⊎◌, inl, inr, if_elim,
}
use wsldrive.Types.{Errc, Result, ok, err}
use wsldrive.Channel.{Frame, FrameChannel, receive_within}
use wsldrive.Server.Files.{Served, send_error}
use wsldrive.Server.Session.Reach.{Reach, begun, goes_on}
use wsldrive.Server.Session.Proven.{IsProven, Entitled, handle-Entitled}
use wsldrive.Server.Session.{
  Session, Setting, served_by, lift, set_channel, limit, begin, promoted, joined, handled, idle,
  polled, serve_round, is_timeout,
}

module _ {W S : Type 0} (env : Setting W S) where
  -- The round of a session that took the client's proof off the connection.
  pub record TookProof (s : Session W S) : Type 0 where
    pub frame : Frame
    pub received : (receive_within env.socket 200 s.served.channel).0 ≡ ok frame
    pub proof : IsProven env s frame

  -- A history with such a round.
  abbrev pub WasProven : {s : Session W S} → Reach env s → Type 0
  WasProven (begun handshake s) = ⊥
  WasProven (goes_on stopping late generation random s r go) = TookProof s ⊎ WasProven r

  abbrev Justified : Session W S → Bool × Session W S → Type 0
  Justified s r = r.1.authed ≡ true → (s.authed ≡ true) ⊎ ((null env.token ≡ true) ⊎ TookProof s)

  refused_same :
      (id : ℕ) (code : Errc) (detail : Bytes) (s : Session W S)
      → (lift env (send_error env.disk env.socket id code detail) s).1.authed ≡ s.authed
  unfolding lift served_by
  refused_same id code detail s = refl

  joined_same : (stopping : Bool) (s : Session W S) → (joined env stopping s).1.authed ≡ s.authed
  unfolding joined
  joined_same stopping s =
      if_elim (λ (r : Bool × Session W S). r.1.authed ≡ s.authed) (s.authed && not s.registered) _ _
        (λ e. refl) (λ e. refl)

  promoted_same :
      (was_authed : Bool) (s : Session W S) → (promoted env was_authed s).authed ≡ s.authed
  unfolding promoted limit set_channel
  promoted_same was_authed s =
      if_elim (λ (t : Session W S). t.authed ≡ s.authed) (s.authed && not was_authed) _ _
        (λ e. refl) (λ e. refl)

  handled_same :
      (stopping was_authed : Bool) (r : Result (Unit {0}) × Session W S)
      → (handled env stopping was_authed r).1.authed ≡ r.1.authed
  unfolding handled
  handled_same stopping was_authed (err e, s) = refl
  handled_same stopping was_authed (ok u, s) =
      joined_same stopping (promoted env was_authed s) ∙ promoted_same was_authed s

  idle_same :
      (stopping late : Bool) (s : Session W S) → (idle env stopping late s).1.authed ≡ s.authed
  unfolding idle
  idle_same stopping late s =
      if_elim (λ (r : Bool × Session W S). r.1.authed ≡ s.authed) stopping _ _ (λ e. refl)
        (λ e.
          if_elim (λ (r : Bool × Session W S). r.1.authed ≡ s.authed) (not s.authed && late) _ _
            (λ f. refused_same 0 _ _ s) (λ f. refl))

  -- The channel has no part in a proof.
  Entitled-before :
      (s : Session W S) (f : Frame)
      → (receive_within env.socket 200 s.served.channel).0 ≡ ok f
      → (ch : FrameChannel S) → Entitled env (set_channel env ch s) f
      → (s.authed ≡ true) ⊎ ((null env.token ≡ true) ⊎ TookProof s)
  unfolding set_channel
  Entitled-before s f came ch (inl a) = inl a
  Entitled-before s f came ch (inr (inl k)) = inr (inl k)
  Entitled-before s f came ch (inr (inr p)) = inr (
      inr (record {
        frame = f;
        received = came;
        proof = record {
          is_auth = p.is_auth;
          was_greeted = p.was_greeted;
          message = p.message;
          left = p.left;
          decodes = p.decodes;
          proves = p.proves;
        };
      }))

  polled-Justified :
      (stopping late : Bool) (generation : ℕ) (random : Bytes) (s : Session W S)
      (ch : FrameChannel S) (m : Result Frame)
      → (receive_within env.socket 200 s.served.channel).0 ≡ m
      → Justified s (polled env stopping late generation random (set_channel env ch s) m)
  unfolding polled set_channel
  polled-Justified stopping late generation random s ch (err e) came =
      if_elim (Justified s) (is_timeout env e) (idle env stopping late (set_channel env ch s))
        (false, set_channel env ch s)
        (λ f h. inl (sym (idle_same stopping late (set_channel env ch s)) ∙ h)) (λ f h. inl h)
  polled-Justified stopping late generation random s ch (ok f) came = λ h.
      Entitled-before s f came ch (
        handle-Entitled env generation random f (set_channel env ch s)
          (sym (handled_same stopping _ _) ∙ h))

  round-Justified :
      (stopping late : Bool) (generation : ℕ) (random : Bytes) (s : Session W S)
      → Justified s (serve_round env stopping late generation random s)
  unfolding serve_round
  round-Justified stopping late generation random s =
      polled-Justified stopping late generation random s _ _ refl

  begin_open :
      (handshake : ℕ) (s : Served W S) → (begin env false handshake s).1.authed ≡ null env.token
  unfolding begin limit set_channel
  begin_open handshake s =
      if_elim (λ (t : Session W S). t.authed ≡ null env.token) (not (null env.token)) _ _
        (λ e. refl) (λ e. refl)

  -- Where a session that is served is authenticated, the server has no token, or in some round of
  -- its history the frame that was received was an Auth with the proof of the client, to a session
  -- that was greeted and over the nonces it had then.
  pub Reach-authed :
      {s : Session W S} (r : Reach env s) → s.authed ≡ true → (null env.token ≡ true) ⊎ WasProven r
  Reach-authed (begun handshake s) h = inl (sym (begin_open handshake s) ∙ h)
  Reach-authed (goes_on stopping late generation random s r go) h =
      elim (round-Justified stopping late generation random s h) [
        | inl a ↦ earlier (Reach-authed r a)
        | inr (inl k) ↦ inl k
        | inr (inr p) ↦ inr (inl p)
      ]
    where
      earlier :
          (null env.token ≡ true) ⊎ WasProven r
          → (null env.token ≡ true) ⊎ (TookProof s ⊎ WasProven r)
      earlier (inl k) = inl k
      earlier (inr p) = inr (inr p)
