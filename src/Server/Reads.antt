-- ===== src/Server/Reads.antt =====
-- src/agent/server.cpp, `send_read`, `send_read_many` and `send_readlink`: the requests that look at
-- the served tree.
pub mod Bounds
use wsldrive.Prelude.{
  ℕ, ◌+◌, ◌-◌, ◌*◌, ◌^◌, min, Bool, true, false, ◌||◌, List, [], ◌∷◌, Bytes, length, null, ltb,
  ◌==◌, Option, none, some, if◌then◌else◌,
}
use wsldrive.Types.{
  Errc, Result, ok, err, not_found, invalid_path, invalid_argument, io_error, too_large,
}
use wsldrive.Disk.{Disk, File, FsError, bad_argument, Opened, opened, unopened, reading}
use wsldrive.Paths.{normalize_path}
use wsldrive.Protocol.Header.{max_payload}
use wsldrive.Protocol.MsgTypes
use wsldrive.Protocol.Requests.{
  ReadRequest, PathRequest, read_read_request, read_path_request, write_read_response,
  write_readlink_response,
}
use wsldrive.Protocol.Bulk.{ReadManyItem, read_read_many_request, write_read_many_response}
use wsldrive.Channel.{Socket, Frame}
use wsldrive.Server.Resolve.{map_fs_error, resolve}
use wsldrive.Server.Files.{Served, Action, reply, send_error, decoded, seek_to}
use wsldrive.Server.Texts.{outside_the_root, read_too_large}

-- The largest file of a bulk reply, and what its contents may add up to.
abbrev pub max_bulk_file : ℕ
max_bulk_file = 16 * 2 ^ 20

abbrev pub bulk_cap : ℕ
bulk_cap = max_payload - 64 * 2 ^ 10

abbrev pub absent : ReadManyItem
absent = record { present = false; contents = [] }

-- `ec == std::errc::invalid_argument ? Errc::InvalidArgument : map_fs_error(ec)`
unfoldable pub readlink_error : FsError → Errc
readlink_error bad_argument = invalid_argument
readlink_error e = map_fs_error e

module _ {W S : Type 0} (disk : Disk W) (socket : Socket S) (root : Bytes) where
  unfoldable pub answer_contents : ℕ → ℕ → Served W S → Bytes → Result (Unit {0}) × Served W S
  answer_contents id size s contents =
      reply disk socket MsgTypes.read_response id
        (write_read_response (record { file_size = size; contents = contents })) s

  unfoldable pub get_and_close : File W → ℕ → W → Bytes × W
  get_and_close f n w = let (contents, after) = f.get n w in (contents, f.close after)

  unfoldable pub read_at :
      ℕ → Bytes → ℕ → ℕ → File W → Served W S → Bool × W → Result (Unit {0}) × Served W S
  read_at id rel size want f s (false, w) =
      send_error disk socket id io_error rel (record s { world = f.close w })
  read_at id rel size want f s (true, w) =
      let (contents, after) = get_and_close f want w in
      answer_contents id size (record s { world = after }) contents

  unfoldable pub read_opened :
      ℕ → Bytes → ℕ → ℕ → ℕ → Served W S → Opened W × W → Result (Unit {0}) × Served W S
  read_opened id rel size offset want s (unopened e, w) =
      send_error disk socket id io_error rel (record s { world = w })
  read_opened id rel size offset want s (opened f, w) =
      read_at id rel size want f s (seek_to f offset w)

  unfoldable pub read_sized : ℕ → Bytes → ReadRequest → Bytes → Option ℕ → Action W S
  read_sized id rel q full none s = send_error disk socket id not_found rel s
  read_sized id rel q full (some size) s =
      let offset = min q.offset size in
      let want = min q.len (size - offset) in
      if ltb (max_payload - 64) want
      then send_error disk socket id too_large read_too_large s
      else if want == 0
      then answer_contents id size s []
      else read_opened id rel size offset want s (disk.open_file full reading s.world)

  unfoldable pub read_resolved : ℕ → Bytes → ReadRequest → Result Bytes → Action W S
  read_resolved id rel q (err e) s = send_error disk socket id invalid_path outside_the_root s
  read_resolved id rel q (ok full) s = read_sized id rel q full (disk.size_of full s.world) s

  unfoldable pub send_read : Frame → Action W S
  send_read f = decoded disk socket (read_read_request f.payload) (λ q.
      let rel = normalize_path q.path in read_resolved f.header.request_id rel q (resolve root rel))

  unfoldable pub bulk_opened : ℕ → Opened W × W → ReadManyItem × W
  bulk_opened size (unopened e, w) = (absent, w)
  bulk_opened size (opened f, w) =
      let (contents, after) = (if size == 0 then ([], f.close w) else get_and_close f size w) in
      (record { present = true; contents = contents }, after)

  unfoldable pub bulk_sized : ℕ → Bytes → W → Option ℕ → ReadManyItem × W
  bulk_sized total full w none = (absent, w)
  bulk_sized total full w (some size) =
      if ltb max_bulk_file size || ltb bulk_cap (total + size)
      then (absent, w)
      else bulk_opened size (disk.open_file full reading w)

  unfoldable pub bulk_resolved : ℕ → W → Result Bytes → ReadManyItem × W
  bulk_resolved total w (err e) = (absent, w)
  bulk_resolved total w (ok full) = bulk_sized total full w (disk.size_of full w)

  -- `total` is what the items so far hold.
  unfoldable pub bulk_items : ℕ → List Bytes → W → List ReadManyItem × W
  bulk_items total [] w = ([], w)
  bulk_items total (path ∷ paths) w =
      let (item, after) = bulk_resolved total w (resolve root (normalize_path path)) in
      let (items, last) = bulk_items (total + length item.contents) paths after in
      (item ∷ items, last)

  unfoldable pub answer_bulk :
      ℕ → Served W S → List ReadManyItem × W → Result (Unit {0}) × Served W S
  answer_bulk id s (items, w) =
      reply disk socket MsgTypes.read_many_response id (write_read_many_response items)
        (record s { world = w })

  unfoldable pub send_read_many : Frame → Action W S
  send_read_many f =
      decoded disk socket (read_read_many_request f.payload)
        (λ paths s. answer_bulk f.header.request_id s (bulk_items 0 paths s.world))

  unfoldable pub answer_link :
      ℕ → Bytes → Served W S → Option FsError × Bytes → Result (Unit {0}) × Served W S
  answer_link id path s (some e, target) = send_error disk socket id (readlink_error e) path s
  answer_link id path s (none, target) =
      reply disk socket MsgTypes.readlink_response id
        (write_readlink_response (record { target = target })) s

  unfoldable pub link_resolved : ℕ → PathRequest → Result Bytes → Action W S
  link_resolved id q (err e) s = send_error disk socket id invalid_path outside_the_root s
  link_resolved id q (ok full) s = answer_link id q.path s (disk.link_at full s.world)

  unfoldable pub send_readlink : Frame → Action W S
  send_readlink f =
      decoded disk socket (read_path_request f.payload)
        (λ q. link_resolved f.header.request_id q (resolve root q.path))
