-- ===== src/Server/Files.antt =====
-- src/agent/server.cpp, `handle_mutation` and what it calls: the requests that change the served tree.
-- A handler is a function of the disk and the channel; the lines for the operator on stderr are left
-- out. `generation` is the value that the acknowledgement loads.
pub mod Keeps
pub mod Confined
use wsldrive.Prelude.{
  ℕ, ◌-◌, ◌^◌, Bool, true, false, not, ◌&&◌, [], ◌∷◌, ◌++◌, Bytes, length, null, ltb, ◌==◌, Option,
  none, some, if◌then◌else◌,
}
use wsldrive.Types.{
  Errc, Result, ok, err, Attributes, not_found, already_exists, not_a_directory, is_a_directory,
  invalid_argument, io_error, protocol_error, errc_code,
}
use wsldrive.Disk.{
  Disk, File, FsError, Opened, opened, unopened, OpenMode, rewriting, updating, creating,
}
use wsldrive.Protocol.Header.{MsgType}
use wsldrive.Protocol.MsgTypes
use wsldrive.Protocol.MsgTypes.{max_file_offset}
use wsldrive.Protocol.Messages.{write_attributes}
use wsldrive.Protocol.Requests.{
  CreateRequest, MkdirRequest, PathRequest, RenameRequest, TruncateRequest, WriteRequest,
  read_create_request, read_mkdir_request, read_path_request, read_rename_request,
  read_truncate_request, read_write_request, write_error, write_mutation_ack, write_write_response,
}
use wsldrive.Channel.{Socket, Frame, FrameChannel, send_with}
use wsldrive.Scanner.{read_attributes}
use wsldrive.Server.Resolve.{map_fs_error, resolve}
use wsldrive.Server.Retry.{with_retry}
use wsldrive.Server.Texts.{not_a_mutation}

-- What a session's thread acts on.
pub record Served (W S : Type 0) : Type 0 where
  pub world : W
  pub channel : FrameChannel S

abbrev pub Action : Type 0 → Type 0 → Type 0
Action W S = Served W S → Result (Unit {0}) × Served W S

unfoldable pub is_unopened : {W : Type 0} → Opened W → Bool
is_unopened (opened f) = false
is_unopened (unopened e) = true

-- An offset that a signed one cannot hold is refused.
unfoldable pub seek_to : {W : Type 0} → File W → ℕ → W → Bool × W
seek_to f offset w = if ltb (2 ^ 63 - 1) offset then (false, w) else f.seek offset w

module _ {W S : Type 0} (disk : Disk W) (socket : Socket S) where
  unfoldable pub replied :
      Served W S → Result (Unit {0}) × FrameChannel S → Result (Unit {0}) × Served W S
  replied s (r, ch) = (r, record s { channel = ch })

  -- `ch.send_with(type, id, …)`
  unfoldable pub reply : MsgType → ℕ → Bytes → Action W S
  reply type id payload s = replied s (send_with socket type id payload s.channel)

  unfoldable pub send_error : ℕ → Errc → Bytes → Action W S
  send_error id code detail =
      reply MsgTypes.error id (write_error (record { code = errc_code code; detail = detail }))

  -- `if (!q) return fail(q.error());`
  unfoldable pub decoded : {Q : Type 0} → Result (Q × Bytes) → (Q → Action W S) → Action W S
  decoded (err e) k s = (err e, s)
  decoded (ok (q, rest)) k s = k q s

  -- `if (!full) return reject(full.error(), path);`
  unfoldable pub resolved : ℕ → Bytes → Result Bytes → (Bytes → Action W S) → Action W S
  resolved id path (err e) k = send_error id e path
  resolved id path (ok full) k = k full

  unfoldable pub fopen_with_retry : Bytes → OpenMode → W → Opened W × W
  fopen_with_retry p mode =
      with_retry (λ o w. is_unopened o && disk.open_transient p w) (disk.open_file p mode)

  -- `is_transient_share_error`, of the file whose state decides whether waiting can help.
  unfoldable pub is_transient : Bytes → Option FsError → W → Bool
  is_transient target none w = false
  is_transient target (some e) w = disk.transient e target w

  module _ (root : Bytes) (generation : ℕ) where
    unfoldable pub ack : Bytes
    ack = write_mutation_ack (record { generation = generation })

    unfoldable pub send_ok : ℕ → Action W S
    send_ok id = reply MsgTypes.success id ack

    unfoldable pub answer_created : ℕ → Bytes → Result Attributes → Action W S
    answer_created id path (err e) = send_error id e path
    answer_created id path (ok a) = reply MsgTypes.create_response id (write_attributes a ++ ack)

    unfoldable pub created :
        ℕ → Bytes → Bytes → Served W S → Opened W × W → Result (Unit {0}) × Served W S
    created id path full s (unopened e, w) = send_error id io_error path (record s { world = w })
    created id path full s (opened f, w) =
        let closed = f.close w in
        answer_created id path (read_attributes disk full closed) (record s { world = closed })

    unfoldable pub handle_create : ℕ → CreateRequest → Action W S
    handle_create id q =
        resolved id q.path (resolve root q.path)
          (λ full s. created id q.path full s (fopen_with_retry full rewriting s.world))

    -- `if (fp == nullptr && errno == ENOENT)`
    unfoldable pub or_create : Bytes → Opened W × W → Opened W × W
    or_create full (opened f, w) = (opened f, w)
    or_create full (unopened is_missing, w) =
        if is_missing then fopen_with_retry full creating w else (unopened is_missing, w)

    unfoldable pub put_all :
        ℕ → WriteRequest → File W → Served W S → ℕ × W → Result (Unit {0}) × Served W S
    put_all id q f s (n, w) =
        let closed = record s { world = f.close w } in
        if not (n == length q.contents)
        then send_error id io_error q.path closed
        else reply MsgTypes.write_response id
            (write_write_response (record { written = n; generation = generation })) closed

    unfoldable pub put_at :
        ℕ → WriteRequest → File W → Served W S → Bool × W → Result (Unit {0}) × Served W S
    put_at id q f s (false, w) = send_error id io_error q.path (record s { world = f.close w })
    put_at id q f s (true, w) =
        put_all id q f s (if null q.contents then (0, w) else f.put q.contents w)

    unfoldable pub write_opened :
        ℕ → WriteRequest → Served W S → Opened W × W → Result (Unit {0}) × Served W S
    write_opened id q s (unopened e, w) = send_error id io_error q.path (record s { world = w })
    write_opened id q s (opened f, w) = put_at id q f s (seek_to f q.offset w)

    unfoldable pub handle_write : ℕ → WriteRequest → Action W S
    handle_write id q = resolved id q.path (resolve root q.path) (λ full s.
        if ltb max_file_offset q.offset
        then send_error id invalid_argument q.path s
        else write_opened id q s (or_create full (fopen_with_retry full updating s.world)))

    -- `if (ec) return reject(map_fs_error(ec), path); return send_ok();`
    unfoldable pub answer_error :
        ℕ → Bytes → Served W S → Option FsError × W → Result (Unit {0}) × Served W S
    answer_error id path s (some e, w) =
        send_error id (map_fs_error e) path (record s { world = w })
    answer_error id path s (none, w) = send_ok id (record s { world = w })

    unfoldable pub handle_truncate : ℕ → TruncateRequest → Action W S
    handle_truncate id q = resolved id q.path (resolve root q.path) (λ full s.
        if ltb max_file_offset q.size
        then send_error id invalid_argument q.path s
        else answer_error id q.path s
            (with_retry (is_transient full) (disk.resize_file full q.size) s.world))

    -- `if (!done || ec) return reject(ec ? map_fs_error(ec) : otherwise, path);`
    unfoldable pub answer_done :
        ℕ → Bytes → Errc → Served W S → (Bool × Option FsError) × W → Result (Unit {0}) × Served W S
    answer_done id path otherwise s ((is_done, some e), w) =
        send_error id (map_fs_error e) path (record s { world = w })
    answer_done id path otherwise s ((false, none), w) =
        send_error id otherwise path (record s { world = w })
    answer_done id path otherwise s ((true, none), w) = send_ok id (record s { world = w })

    unfoldable pub handle_mkdir : ℕ → MkdirRequest → Action W S
    handle_mkdir id q =
        resolved id q.path (resolve root q.path)
          (λ full s. answer_done id q.path already_exists s (disk.create_directory full s.world))

    unfoldable pub handle_unlink : ℕ → PathRequest → Action W S
    handle_unlink id q = resolved id q.path (resolve root q.path) (λ full s.
        if disk.directory_at full s.world
        then send_error id is_a_directory q.path s
        else answer_done id q.path not_found s (
            with_retry (λ (r : Bool × Option FsError). is_transient full r.1)
              (disk.remove_file full) s.world))

    unfoldable pub handle_rmdir : ℕ → PathRequest → Action W S
    handle_rmdir id q = resolved id q.path (resolve root q.path) (λ full s.
        if not (disk.directory_at full s.world)
        then send_error id not_a_directory q.path s
        else answer_done id q.path not_found s (disk.remove_file full s.world))

    unfoldable pub handle_rename : ℕ → RenameRequest → Action W S
    handle_rename id q = resolved id q.from (resolve root q.from) (λ from.
        resolved id q.to (resolve root q.to) (λ to s.
          answer_error id q.to s (with_retry (is_transient to) (disk.rename_file from to) s.world)))

    unfoldable pub handle_mutation : Frame → Action W S
    handle_mutation f =
        let id = f.header.request_id in
        let type = f.header.type in
        if type == MsgTypes.create_request
        then decoded (read_create_request f.payload) (handle_create id)
        else if type == MsgTypes.write_request
        then decoded (read_write_request f.payload) (handle_write id)
        else if type == MsgTypes.truncate_request
        then decoded (read_truncate_request f.payload) (handle_truncate id)
        else if type == MsgTypes.mkdir_request
        then decoded (read_mkdir_request f.payload) (handle_mkdir id)
        else if type == MsgTypes.unlink_request
        then decoded (read_path_request f.payload) (handle_unlink id)
        else if type == MsgTypes.rmdir_request
        then decoded (read_path_request f.payload) (handle_rmdir id)
        else if type == MsgTypes.rename_request
        then decoded (read_rename_request f.payload) (handle_rename id)
        else send_error id protocol_error not_a_mutation
