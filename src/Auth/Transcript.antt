-- ===== src/Auth/Transcript.antt =====
-- The bytes that `auth_proof` hashes: no two sets of inputs share them.
use wsldrive.Prelude.{
  ℕ, zero, suc, ◌+◌, ◌-◌, ◌*◌, ◌/◌, ◌%◌, ◌≤◌, ◌<◌, ◌≡◌, ◌≢◌, refl, sym, ap, ◌∙◌, Bool, true, false,
  [], ◌∷◌, ◌++◌, Bytes, All, length, append_assoc, append-nil, arith, if_elim, ltb, All-append,
}
use wsldrive.Auth.{decimal_loop, to_string, feed, domain, direction, transcript}

-- The number that decimal digits spell, behind the digits of `n`.
value : ℕ → Bytes → ℕ
value n [] = n
value n (c ∷ s) = value (n * 10 + (c - b'0')) s

value-append : (n : ℕ) (s t : Bytes) → value n (s ++ t) ≡ value (value n s) t
unfolding value
value-append n [] t = refl
value-append n (c ∷ s) t = value-append (n * 10 + (c - b'0')) s t

value-decimal_loop : (fuel n : ℕ) → n < fuel → value 0 (decimal_loop fuel n) ≡ n
unfolding value decimal_loop
value-decimal_loop zero n h = absurd (omega arith)
value-decimal_loop (suc fuel) n h =
    let rest : ltb n 10 ≡ false → value 0 (decimal_loop fuel (n / 10)) ≡ n / 10 =
      λ e. value-decimal_loop fuel (n / 10) (let big : 10 ≤ n = ground arith in omega arith) in
    if_elim (λ l. value 0 (l ++ (b'0' + n % 10) ∷ []) ≡ n) (ltb n 10) _ _
      (λ e. let small : n < 10 = ground arith in omega arith)
      (λ e.
        value-append 0 (decimal_loop fuel (n / 10)) ((b'0' + n % 10) ∷ []) ∙ omega (arith, rest e))

IsNoColon : ℕ → Type 0
IsNoColon c = c ≢ b':'

decimal_loop-IsNoColon : (fuel n : ℕ) → All IsNoColon (decimal_loop fuel n)
unfolding decimal_loop IsNoColon
decimal_loop-IsNoColon zero n = tt
decimal_loop-IsNoColon (suc fuel) n =
    let rest = decimal_loop-IsNoColon fuel (n / 10) in
    if_elim (λ l. All IsNoColon (l ++ (b'0' + n % 10) ∷ [])) (ltb n 10) _ _
      (λ e. (λ h. omega arith, tt))
      (λ e. All-append IsNoColon (decimal_loop fuel (n / 10)) _ rest (λ h. omega arith, tt))

∷_inj : (x y : ℕ) (xs ys : Bytes) → x ∷ xs ≡ y ∷ ys → (x ≡ y) × (xs ≡ ys)
∷_inj x y xs ys h = (cc, cc)

colon_inj :
    (s t u v : Bytes)
    → All IsNoColon s
    → All IsNoColon t
    → s ++ b':' ∷ u ≡ t ++ b':' ∷ v
    → (s ≡ t) × (u ≡ v)
unfolding IsNoColon
colon_inj [] [] u v ds dt h = (refl, (∷_inj _ _ _ _ h).1)
colon_inj [] (y ∷ t) u v ds dt h = absurd (dt.0 (sym (∷_inj _ _ _ _ h).0))
colon_inj (x ∷ s) [] u v ds dt h = absurd (ds.0 (∷_inj _ _ _ _ h).0)
colon_inj (x ∷ s) (y ∷ t) u v ds dt h =
    let parts = ∷_inj _ _ _ _ h in
    let rest = colon_inj s t u v ds.1 dt.1 parts.1 in (rw (parts.0, rest.0) refl, rest.1)

append_inj : (s t u v : Bytes) → length s ≡ length t → s ++ u ≡ t ++ v → (s ≡ t) × (u ≡ v)
append_inj [] [] u v e h = (refl, h)
append_inj [] (y ∷ t) u v e h = absurd (omega arith)
append_inj (x ∷ s) [] u v e h = absurd (omega arith)
append_inj (x ∷ s) (y ∷ t) u v e h =
    let parts = ∷_inj _ _ _ _ h in
    let rest = append_inj s t u v (omega arith) parts.1 in (rw (parts.0, rest.0) refl, rest.1)

to_string_inj : (m n : ℕ) → to_string m ≡ to_string n → m ≡ n
unfolding to_string
to_string_inj m n h =
    sym (value-decimal_loop (m + 1) m (omega arith))
    ∙ ap (value 0) h
    ∙ value-decimal_loop (n + 1) n (omega arith)

-- A field that is fed tells where it ends.
pub feed_inj : (s t u v : Bytes) → feed s ++ u ≡ feed t ++ v → (s ≡ t) × (u ≡ v)
unfolding feed
feed_inj s t u v h =
    let parts =
      colon_inj (to_string (length s)) (to_string (length t)) (s ++ u) (t ++ v)
        (unfold to_string in decimal_loop-IsNoColon (length s + 1) (length s))
        (unfold to_string in decimal_loop-IsNoColon (length t + 1) (length t))
        (sym (append_assoc _ _ u) ∙ h ∙ append_assoc _ _ v) in
    append_inj s t u v (to_string_inj (length s) (length t) parts.0) parts.1

direction_inj : (a b : Bool) → direction a ≡ direction b → a ≡ b
unfolding direction
direction_inj true true h = refl
direction_inj true false h = absurd (let e = (∷_inj _ _ _ _ h).0 in omega arith)
direction_inj false true h = absurd (let e = (∷_inj _ _ _ _ h).0 in omega arith)
direction_inj false false h = refl

-- Proofs are made of the same bytes only for the same token, nonces and direction.
pub transcript_inj :
    (token client server token2 client2 server2 : Bytes) (from from2 : Bool)
    → transcript token client server from ≡ transcript token2 client2 server2 from2
    → (token ≡ token2) × (client ≡ client2) × (server ≡ server2) × (from ≡ from2)
unfolding transcript
transcript_inj token client server token2 client2 server2 from from2 h =
    let d =
      feed_inj domain domain (feed (direction from) ++ (feed token ++ (feed client ++ feed server)))
        (feed (direction from2) ++ (feed token2 ++ (feed client2 ++ feed server2))) h in
    let f =
      feed_inj (direction from) (direction from2) (feed token ++ (feed client ++ feed server))
        (feed token2 ++ (feed client2 ++ feed server2)) d.1 in
    let t = feed_inj token token2 (feed client ++ feed server) (feed client2 ++ feed server2) f.1 in
    let c = feed_inj client client2 (feed server) (feed server2) t.1 in
    let s = feed_inj server server2 [] [] (append-nil _ ∙ c.1 ∙ sym (append-nil _)) in
    (t.0, c.0, s.0, direction_inj from from2 f.0)
