-- ===== src/Server/Files/Keeps.antt =====
-- What calls on paths below the root keep, the answers and the calls with retries keep.
use wsldrive.Prelude.{ℕ, ◌≡◌, refl, Bool, true, false, List, Bytes, Option, none, some}
use wsldrive.Types.{Errc, Result, ok, err}
use wsldrive.Disk.{Disk, File, FsError, Opened, opened, unopened, OpenMode}
use wsldrive.Paths.{starts_with_slash}
use wsldrive.Protocol.Header.{MsgType}
use wsldrive.Channel.{Socket}
use wsldrive.Server.Resolve.{resolve}
use wsldrive.Server.Resolve.Contained.{IsBelow, resolve-IsBelow}
use wsldrive.Server.Retry.{with_retry, with_retry_holds}
use wsldrive.Server.Files.{
  Served, Action, replied, reply, send_error, decoded, resolved, fopen_with_retry, answer_error,
  answer_done, send_ok,
}

abbrev pub Below : Bytes → Bytes → Type 0
Below root p = (ws : List Bytes) × IsBelow root ws p

-- A file whose calls keep `I`.
pub record KeepsFile {W : Type 0} (I : W → Type 0) (f : File W) : Type 0 where
  pub seek_keeps : (n : ℕ) (w : W) → I w → I (f.seek n w).1
  pub put_keeps : (s : Bytes) (w : W) → I w → I (f.put s w).1
  pub close_keeps : (w : W) → I w → I (f.close w)

abbrev pub KeepsOpened : {W : Type 0} → (W → Type 0) → Opened W × W → Type 0
KeepsOpened I (opened f, w) = KeepsFile I f × I w
KeepsOpened I (unopened e, w) = I w

-- `I` is something that calls on paths below the root keep, such as the contents of all files that
-- are not below it.
pub record IsOutside {W : Type 0} (disk : Disk W) (root : Bytes) (I : W → Type 0) : Type 0 where
  pub open_keeps :
      (p : Bytes) (mode : OpenMode) (w : W)
      → Below root p
      → I w
      → KeepsOpened I (disk.open_file p mode w)
  pub resize_keeps : (p : Bytes) (n : ℕ) (w : W) → Below root p → I w → I (disk.resize_file p n w).1
  pub create_keeps : (p : Bytes) (w : W) → Below root p → I w → I (disk.create_directory p w).1
  pub remove_keeps : (p : Bytes) (w : W) → Below root p → I w → I (disk.remove_file p w).1
  pub rename_keeps :
      (p q : Bytes) (w : W) → Below root p → Below root q → I w → I (disk.rename_file p q w).1

module _ {W S : Type 0} (disk : Disk W) (socket : Socket S) (root : Bytes) (generation : ℕ)
    (I : W → Type 0) (outside : IsOutside disk root I)
    (absolute : starts_with_slash root ≡ true) where
  abbrev pub Keeps : Result (Unit {0}) × Served W S → Type 0
  Keeps r = I r.1.world

  pub reply-Keeps :
      (type : MsgType) (id : ℕ) (payload : Bytes) (s : Served W S)
      → I s.world
      → Keeps (reply disk socket type id payload s)
  unfolding reply replied
  reply-Keeps type id payload s h = h

  pub send_error-Keeps :
      (id : ℕ) (e : Errc) (detail : Bytes) (s : Served W S)
      → I s.world
      → Keeps (send_error disk socket id e detail s)
  unfolding send_error
  send_error-Keeps id e detail s h = reply-Keeps _ id _ s h

  pub decoded-Keeps :
      {Q : Type 0} (q : Result (Q × Bytes)) (k : Q → Action W S) (s : Served W S)
      → ((q : Q) → Keeps (k q s))
      → I s.world
      → Keeps (decoded disk socket q k s)
  unfolding decoded
  decoded-Keeps (err e) k s each h = h
  decoded-Keeps (ok (q, rest)) k s each h = each q

  pub resolved-Keeps :
      (id : ℕ) (path : Bytes) (k : Bytes → Action W S) (s : Served W S)
      → ((full : Bytes) → Below root full → Keeps (k full s))
      → I s.world
      → Keeps (resolved disk socket id path (resolve root path) k s)
  unfolding resolved
  resolved-Keeps id path k s each h = go (resolve root path) refl
    where
      go : (r : Result Bytes) → resolve root path ≡ r → Keeps (resolved disk socket id path r k s)
      go (err e) eq = send_error-Keeps id e path s h
      go (ok full) eq = each full (_, resolve-IsBelow root path full absolute eq)

  -- A call with retries keeps what the call keeps.
  pub retried_keeps :
      {R : Type 0} (again : R → W → Bool) (op : W → R × W) (w : W)
      → ((w : W) → I w → I (op w).1)
      → I w
      → I (with_retry again op w).1
  retried_keeps again op w keeps h = with_retry_holds again op I (λ r. I r.1) keeps (λ r k. k) w h

  opened_world : (r : Opened W × W) → KeepsOpened I r → I r.1
  opened_world (opened f, w) h = h.1
  opened_world (unopened e, w) h = h

  pub fopen_keeps :
      (p : Bytes) (mode : OpenMode) (w : W)
      → Below root p
      → I w
      → KeepsOpened I (fopen_with_retry disk socket p mode w)
  unfolding fopen_with_retry
  fopen_keeps p mode w b h =
      with_retry_holds _ (disk.open_file p mode) I (KeepsOpened I)
        (λ w k. outside.open_keeps p mode w b k) opened_world w h

  pub answer_error-Keeps :
      (id : ℕ) (path : Bytes) (s : Served W S) (r : Option FsError × W)
      → I r.1
      → Keeps (answer_error disk socket root generation id path s r)
  unfolding answer_error send_ok
  answer_error-Keeps id path s (some e, w) h = send_error-Keeps id _ path (record s { world = w }) h
  answer_error-Keeps id path s (none, w) h = reply-Keeps _ id _ (record s { world = w }) h

  pub answer_done-Keeps :
      (id : ℕ) (path : Bytes) (otherwise : Errc) (s : Served W S) (r : (Bool × Option FsError) × W)
      → I r.1
      → Keeps (answer_done disk socket root generation id path otherwise s r)
  unfolding answer_done send_ok
  answer_done-Keeps id path otherwise s ((b, some e), w) h =
      send_error-Keeps id _ path (record s { world = w }) h
  answer_done-Keeps id path otherwise s ((false, none), w) h =
      send_error-Keeps id otherwise path (record s { world = w }) h
  answer_done-Keeps id path otherwise s ((true, none), w) h =
      reply-Keeps _ id _ (record s { world = w }) h
