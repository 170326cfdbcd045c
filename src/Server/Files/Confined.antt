-- ===== src/Server/Files/Confined.antt =====
-- The requests that change the served tree do nothing to the disk but calls on paths below the root.
use wsldrive.Prelude.{
  ℕ, ◌≡◌, Bool, true, false, not, Bytes, length, null, ltb, ◌==◌, if◌then◌else◌, if_elim, ◌-◌, ◌^◌,
}
use wsldrive.Types.{Result, ok, err, Attributes}
use wsldrive.Disk.{Disk, File, Opened, opened, unopened, rewriting, updating, creating}
use wsldrive.Paths.{starts_with_slash}
use wsldrive.Protocol.Requests.{
  CreateRequest, MkdirRequest, PathRequest, RenameRequest, TruncateRequest, WriteRequest,
  read_create_request, read_mkdir_request, read_path_request, read_rename_request,
  read_truncate_request, read_write_request,
}
use wsldrive.Protocol.MsgTypes
use wsldrive.Protocol.MsgTypes.{max_file_offset}
use wsldrive.Channel.{Socket, Frame}
use wsldrive.Server.Files.Keeps.{
  Below, KeepsFile, KeepsOpened, IsOutside, Keeps, reply-Keeps, send_error-Keeps, decoded-Keeps,
  resolved-Keeps, retried_keeps, fopen_keeps, answer_error-Keeps, answer_done-Keeps,
}
use wsldrive.Server.Files.{
  Served, Action, seek_to, decoded, answer_created, created, handle_create, or_create, put_all,
  put_at, write_opened, handle_write, handle_truncate, handle_mkdir, handle_unlink, handle_rmdir,
  handle_rename, handle_mutation,
}

module _ {W S : Type 0} (disk : Disk W) (socket : Socket S) (root : Bytes) (generation : ℕ)
    (I : W → Type 0) (outside : IsOutside disk root I)
    (absolute : starts_with_slash root ≡ true) where
  abbrev Kept : Result (Unit {0}) × Served W S → Type 0
  Kept = Keeps disk socket root generation I outside absolute

  answer_created_keeps :
      (id : ℕ) (path : Bytes) (a : Result Attributes) (s : Served W S)
      → I s.world
      → Kept (answer_created disk socket root generation id path a s)
  unfolding answer_created
  answer_created_keeps id path (err e) s h =
      send_error-Keeps disk socket root generation I outside absolute id e path s h
  answer_created_keeps id path (ok a) s h =
      reply-Keeps disk socket root generation I outside absolute _ id _ s h

  created_keeps :
      (id : ℕ) (path full : Bytes) (s : Served W S) (r : Opened W × W)
      → KeepsOpened I r
      → Kept (created disk socket root generation id path full s r)
  unfolding created
  created_keeps id path full s (unopened e, w) h =
      send_error-Keeps disk socket root generation I outside absolute id _ path _ h
  created_keeps id path full s (opened f, w) h =
      answer_created_keeps id path _ _ (h.0.close_keeps w h.1)

  handle_create_keeps :
      (id : ℕ) (q : CreateRequest) (s : Served W S)
      → I s.world
      → Kept (handle_create disk socket root generation id q s)
  unfolding handle_create
  handle_create_keeps id q s h =
      resolved-Keeps disk socket root generation I outside absolute id q.path _ s
        (λ full b.
          created_keeps id q.path full s _
            (fopen_keeps disk socket root generation I outside absolute full rewriting s.world b h))
        h

  or_create_keeps :
      (full : Bytes) (r : Opened W × W)
      → Below root full
      → KeepsOpened I r
      → KeepsOpened I (or_create disk socket root generation full r)
  unfolding or_create
  or_create_keeps full (opened f, w) b h = h
  or_create_keeps full (unopened is_missing, w) b h =
      if_elim (λ (r : Opened W × W). KeepsOpened I r) is_missing _ _
        (λ e. fopen_keeps disk socket root generation I outside absolute full creating w b h)
        (λ e. h)

  put_all_keeps :
      (id : ℕ) (q : WriteRequest) (f : File W) (s : Served W S) (r : ℕ × W)
      → KeepsFile I f
      → I r.1
      → Kept (put_all disk socket root generation id q f s r)
  unfolding put_all
  put_all_keeps id q f s (n, w) k h =
      if_elim Kept (not (n == length q.contents)) _ _
        (λ e.
          send_error-Keeps disk socket root generation I outside absolute id _ q.path _
            (k.close_keeps w h))
        (λ e.
          reply-Keeps disk socket root generation I outside absolute _ id _ _ (k.close_keeps w h))

  put_at_keeps :
      (id : ℕ) (q : WriteRequest) (f : File W) (s : Served W S) (r : Bool × W)
      → KeepsFile I f
      → I r.1
      → Kept (put_at disk socket root generation id q f s r)
  unfolding put_at
  put_at_keeps id q f s (false, w) k h =
      send_error-Keeps disk socket root generation I outside absolute id _ q.path _
        (k.close_keeps w h)
  put_at_keeps id q f s (true, w) k h = put_all_keeps id q f s _ k (
      if_elim (λ (r : ℕ × W). I r.1) (null q.contents) _ _ (λ e. h)
        (λ e. k.put_keeps q.contents w h))

  write_opened_keeps :
      (id : ℕ) (q : WriteRequest) (s : Served W S) (r : Opened W × W)
      → KeepsOpened I r
      → Kept (write_opened disk socket root generation id q s r)
  unfolding write_opened seek_to
  write_opened_keeps id q s (unopened e, w) h =
      send_error-Keeps disk socket root generation I outside absolute id _ q.path _ h
  write_opened_keeps id q s (opened f, w) h = put_at_keeps id q f s _ h.0 (
      if_elim (λ (r : Bool × W). I r.1) (ltb (2 ^ 63 - 1) q.offset) _ _ (λ e. h.1)
        (λ e. h.0.seek_keeps q.offset w h.1))

  handle_write_keeps :
      (id : ℕ) (q : WriteRequest) (s : Served W S)
      → I s.world
      → Kept (handle_write disk socket root generation id q s)
  unfolding handle_write
  handle_write_keeps id q s h =
      resolved-Keeps disk socket root generation I outside absolute id q.path _ s
        (λ full b.
          if_elim Kept (ltb max_file_offset q.offset) _ _
            (λ e. send_error-Keeps disk socket root generation I outside absolute id _ q.path s h)
            (λ e. write_opened_keeps id q s _ (
              or_create_keeps full _ b (
                fopen_keeps disk socket root generation I outside absolute full updating s.world b
                  h))))
        h

  handle_truncate_keeps :
      (id : ℕ) (q : TruncateRequest) (s : Served W S)
      → I s.world
      → Kept (handle_truncate disk socket root generation id q s)
  unfolding handle_truncate
  handle_truncate_keeps id q s h =
      resolved-Keeps disk socket root generation I outside absolute id q.path _ s
        (λ full b.
          if_elim Kept (ltb max_file_offset q.size) _ _
            (λ e. send_error-Keeps disk socket root generation I outside absolute id _ q.path s h)
            (λ e. answer_error-Keeps disk socket root generation I outside absolute id q.path s _ (
              retried_keeps disk socket root generation I outside absolute _ _ s.world
                (λ w k. outside.resize_keeps full q.size w b k) h)))
        h

  handle_mkdir_keeps :
      (id : ℕ) (q : MkdirRequest) (s : Served W S)
      → I s.world
      → Kept (handle_mkdir disk socket root generation id q s)
  unfolding handle_mkdir
  handle_mkdir_keeps id q s h =
      resolved-Keeps disk socket root generation I outside absolute id q.path _ s
        (λ full b.
          answer_done-Keeps disk socket root generation I outside absolute id q.path _ s _
            (outside.create_keeps full s.world b h))
        h

  handle_unlink_keeps :
      (id : ℕ) (q : PathRequest) (s : Served W S)
      → I s.world
      → Kept (handle_unlink disk socket root generation id q s)
  unfolding handle_unlink
  handle_unlink_keeps id q s h =
      resolved-Keeps disk socket root generation I outside absolute id q.path _ s
        (λ full b.
          if_elim Kept (disk.directory_at full s.world) _ _
            (λ e. send_error-Keeps disk socket root generation I outside absolute id _ q.path s h)
            (λ e. answer_done-Keeps disk socket root generation I outside absolute id q.path _ s _ (
              retried_keeps disk socket root generation I outside absolute _ _ s.world
                (λ w k. outside.remove_keeps full w b k) h)))
        h

  handle_rmdir_keeps :
      (id : ℕ) (q : PathRequest) (s : Served W S)
      → I s.world
      → Kept (handle_rmdir disk socket root generation id q s)
  unfolding handle_rmdir
  handle_rmdir_keeps id q s h =
      resolved-Keeps disk socket root generation I outside absolute id q.path _ s
        (λ full b.
          if_elim Kept (not (disk.directory_at full s.world)) _ _
            (λ e. send_error-Keeps disk socket root generation I outside absolute id _ q.path s h)
            (λ e.
              answer_done-Keeps disk socket root generation I outside absolute id q.path _ s _
                (outside.remove_keeps full s.world b h)))
        h

  handle_rename_keeps :
      (id : ℕ) (q : RenameRequest) (s : Served W S)
      → I s.world
      → Kept (handle_rename disk socket root generation id q s)
  unfolding handle_rename
  handle_rename_keeps id q s h =
      resolved-Keeps disk socket root generation I outside absolute id q.from _ s
        (λ from b.
          resolved-Keeps disk socket root generation I outside absolute id q.to _ s
            (λ to c. answer_error-Keeps disk socket root generation I outside absolute id q.to s _ (
              retried_keeps disk socket root generation I outside absolute _ _ s.world
                (λ w k. outside.rename_keeps from to w b c k) h))
            h)
        h

  record IsSafe (x : Action W S) : Type 0 where
    keeps : (s : Served W S) → I s.world → Kept (x s)

  either-IsSafe : (b : Bool) (x y : Action W S) → IsSafe x → IsSafe y → IsSafe (if b then x else y)
  either-IsSafe true x y h k = h
  either-IsSafe false x y h k = k

  request-IsSafe :
      {Q : Type 0} (q : Result (Q × Bytes)) (k : Q → Action W S)
      → ((q : Q) (s : Served W S) → I s.world → Kept (k q s))
      → IsSafe (decoded disk socket q k)
  request-IsSafe q k each = record {
    keeps = λ s h.
        decoded-Keeps disk socket root generation I outside absolute q k s (λ q. each q s h) h;
  }

  handle_mutation-IsSafe : (f : Frame) → IsSafe (handle_mutation disk socket root generation f)
  unfolding handle_mutation
  handle_mutation-IsSafe f =
      either-IsSafe (f.header.type == MsgTypes.create_request) _ _
        (request-IsSafe (read_create_request f.payload)
          (handle_create disk socket root generation f.header.request_id)
          (handle_create_keeps f.header.request_id))
        (either-IsSafe (f.header.type == MsgTypes.write_request) _ _
          (request-IsSafe (read_write_request f.payload)
            (handle_write disk socket root generation f.header.request_id)
            (handle_write_keeps f.header.request_id))
          (either-IsSafe (f.header.type == MsgTypes.truncate_request) _ _
            (request-IsSafe (read_truncate_request f.payload)
              (handle_truncate disk socket root generation f.header.request_id)
              (handle_truncate_keeps f.header.request_id))
            (either-IsSafe (f.header.type == MsgTypes.mkdir_request) _ _
              (request-IsSafe (read_mkdir_request f.payload)
                (handle_mkdir disk socket root generation f.header.request_id)
                (handle_mkdir_keeps f.header.request_id))
              (either-IsSafe (f.header.type == MsgTypes.unlink_request) _ _
                (request-IsSafe (read_path_request f.payload)
                  (handle_unlink disk socket root generation f.header.request_id)
                  (handle_unlink_keeps f.header.request_id))
                (either-IsSafe (f.header.type == MsgTypes.rmdir_request) _ _
                  (request-IsSafe (read_path_request f.payload)
                    (handle_rmdir disk socket root generation f.header.request_id)
                    (handle_rmdir_keeps f.header.request_id))
                  (either-IsSafe (f.header.type == MsgTypes.rename_request) _ _
                    (request-IsSafe (read_rename_request f.payload)
                      (handle_rename disk socket root generation f.header.request_id)
                      (handle_rename_keeps f.header.request_id))
                    (record {
                      keeps = λ s h.
                          send_error-Keeps disk socket root generation I outside absolute
                            f.header.request_id _ _ s h;
                    })))))))

  -- A mutation request, whatever its frame holds, keeps what calls on paths below an absolute root
  -- keep, such as the contents of everything that is not below it: no other path reaches the disk.
  pub handle_mutation-IsOutside :
      (f : Frame) (s : Served W S)
      → I s.world
      → I (handle_mutation disk socket root generation f s).1.world
  handle_mutation-IsOutside f s h = (handle_mutation-IsSafe f).keeps s h
