-- ===== src/Protocol/Reader/Law.antt =====
-- What it means that a reader decodes given bytes, and the rules for the combinators.
use wsldrive.Prelude.{
  ℕ, ◌≤◌, length, leb, le→leb, ◌≡◌, refl, Bool, true, ◌++◌, [], append_assoc, Bytes,
}
use wsldrive.Types.{Errc, ok, err}
use wsldrive.Protocol.Reader.{Reader, pure, ◌>>=◌, ◌>>◌, check, remaining}

-- `m` takes exactly `bs` off the front of any input and returns `a`.
pub record Reads {ℓ} {A : Type ℓ} (m : Reader A) (bs : Bytes) (a : A) : Type ℓ where
  pub run : (rest : Bytes) → m (bs ++ rest) ≡ ok (a, rest)

pub Reads-pure {ℓ} : {A : Type ℓ} (a : A) → Reads (pure a) [] a
unfolding pure
Reads-pure a = record { run = λ rest. refl }

pub Reads-bind {ℓ κ} :
    {A : Type ℓ} {B : Type κ} {m : Reader A} (f : A → Reader B) {bs cs : Bytes} {a : A} {b : B}
    → Reads m bs a
    → Reads (f a) cs b
    → Reads (m >>= f) (bs ++ cs) b
unfolding ◌>>=◌
Reads-bind f {bs} {cs} h k = record {
  run = λ rest. rw (append_assoc bs cs rest, h.run (cs ++ rest), ◌>>=◌) (k.run rest);
}

-- The last read of a chain, whose value goes into the result.
pub Reads-map {ℓ κ} :
    {A : Type ℓ} {B : Type κ} {m : Reader A} (f : A → B) {bs : Bytes} {a : A}
    → Reads m bs a
    → Reads (m >>= λ x. pure (f x)) bs (f a)
unfolding ◌>>=◌ pure
Reads-map f h = record { run = λ rest. rw (h.run rest, ◌>>=◌) }

pub Reads-check {ℓ} :
    {B : Type ℓ} {c : Bool} (e : Errc) {k : Reader B} {bs : Bytes} {b : B}
    → c ≡ true
    → Reads k bs b
    → Reads (check c e >> k) bs b
unfolding ◌>>◌ ◌>>=◌ check
Reads-check e h k = record { run = λ rest. rw h (k.run rest) }

-- One step of a chain on a given input.
pub bind_ok {ℓ κ} :
    {A : Type ℓ} {B : Type κ} (m : Reader A) (f : A → Reader B) (s : Bytes) {a : A} {t : Bytes}
    → m s ≡ ok (a, t)
    → (m >>= f) s ≡ f a t
unfolding ◌>>=◌
bind_ok m f s e = rw (e, ◌>>=◌)

-- A chain whose first read fails, fails the same way.
pub bind_err {ℓ κ} :
    {A : Type ℓ} {B : Type κ} (m : Reader A) (f : A → Reader B) (s : Bytes) {e : Errc}
    → m s ≡ err e
    → (m >>= f) s ≡ err e
unfolding ◌>>=◌
bind_err m f s h = rw (h, ◌>>=◌)

-- The test of a count or length against the remaining input passes where there is enough.
pub enough_ok {ℓ} :
    {A : Type ℓ} (n : ℕ) (e : Errc) (k : Reader A) (s : Bytes)
    → n ≤ length s
    → (remaining >>= λ left. check (leb n left) e >> k) s ≡ k s
unfolding remaining ◌>>=◌ ◌>>◌ check
enough_ok n e k s h = rw (le→leb n (length s) h)
