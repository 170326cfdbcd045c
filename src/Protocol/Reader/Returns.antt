-- ===== src/Protocol/Reader/Returns.antt =====
-- What a reader returns on any input at all, where it returns something.
use wsldrive.Prelude.{◌≡◌, refl, Bool, true, false, Bytes}
use mathlib.Core.Path.{subst}
use wsldrive.Types.{Errc, Result, ok, err}
use wsldrive.Protocol.Reader.{Reader, pure, ◌>>=◌, ◌>>◌, check}

module _ {A : Type 0} where
  abbrev pub Post : (A → Type 0) → Result (A × Bytes) → Type 0
  Post P (ok (a, t)) = P a
  Post P (err e) = Unit {0}

  pub record Returns (P : A → Type 0) (m : Reader A) : Type 0 where
    pub post : (s : Bytes) → Post P (m s)

  pub pure-Returns : (P : A → Type 0) (a : A) → P a → Returns P (pure a)
  unfolding pure
  pure-Returns P a h = record { post = λ s. h }

  pub any-Returns : (m : Reader A) → Returns (λ a. Unit {0}) m
  any-Returns m = record { post = λ s. go (m s) }
    where
      go : (r : Result (A × Bytes)) → Post (λ a. Unit {0}) r
      go (ok (a, t)) = tt
      go (err e) = tt

  pub weaken-Returns :
      (P Q : A → Type 0) (m : Reader A) → ((a : A) → P a → Q a) → Returns P m → Returns Q m
  weaken-Returns P Q m f h = record { post = λ s. go (m s) (h.post s) }
    where
      go : (r : Result (A × Bytes)) → Post P r → Post Q r
      go (ok (a, t)) p = f a p
      go (err e) p = tt

  pub Returns_ok :
      (P : A → Type 0) (m : Reader A) (s t : Bytes) (a : A) → Returns P m → m s ≡ ok (a, t) → P a
  Returns_ok P m s t a h e = subst (Post P) e (h.post s)

module _ {A B : Type 0} (P : A → Type 0) (Q : B → Type 0) where
  pub bind-Returns :
      (m : Reader A) (f : A → Reader B)
      → Returns P m
      → ((a : A) → P a → Returns Q (f a))
      → Returns Q (m >>= f)
  unfolding ◌>>=◌
  bind-Returns m f h k = record { post = λ s. go (m s) (h.post s) }
    where
      go :
          (r : Result (A × Bytes))
          → Post P r
          → Post Q (elim r as (λ _. Result (B × Bytes)) [ ok (a, t) ↦ f a t | err e ↦ err e ])
      go (ok (a, t)) p = (k a p).post t
      go (err e) p = tt

module _ {B : Type 0} (Q : B → Type 0) where
  -- Behind a check its condition holds.
  pub check-Returns :
      (b : Bool) (e : Errc) (m : Reader B) → (b ≡ true → Returns Q m) → Returns Q (check b e >> m)
  unfolding ◌>>◌ ◌>>=◌ check
  check-Returns true e m h = record { post = λ s. (h refl).post s }
  check-Returns false e m h = record { post = λ s. tt }
