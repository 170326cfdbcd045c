-- ===== src/Client/Requests.antt =====
-- src/agent/client.cpp: the requests that change the served tree, each with what it does to the mirror
-- once the agent has answered. `exchange` sends a request and waits for the reply to it, over a
-- connection of any type; `now` is the clock that `bump_mtime` reads.
pub mod Atomic
pub mod Versions
use wsldrive.Prelude.{
  ℕ, suc, ◌+◌, ◌-◌, ◌%◌, ◌^◌, Bool, true, false, not, ◌&&◌, ◌||◌, [], ◌∷◌, Bytes, bytes_eq, null,
  ltb, leb, ◌==◌, Option, none, some, if◌then◌else◌,
}
use wsldrive.Prelude.Int.{ℤ, pos, negsuc}
use wsldrive.Types.{
  Errc, Result, ok, err, Attributes, file, directory, connection_closed, protocol_error,
  unauthorized, errc_code, errc_of,
}
use wsldrive.Paths.{normalize_path, split_parent}
use wsldrive.Protocol.Reader.{Reader, pure, ◌>>=◌}
use wsldrive.Protocol.Header.{MsgType}
use wsldrive.Protocol.MsgTypes
use wsldrive.Protocol.Messages.{read_attributes}
use wsldrive.Protocol.Requests.{
  ErrorMessage, MutationAck, WriteResponse, write_create_request, write_write_request,
  write_truncate_request, write_mkdir_request, write_path_request, write_rename_request, read_error,
  read_mutation_ack, read_write_response,
}
use wsldrive.Tree.{MetadataTree, node, is_dir, root}
use wsldrive.Tree.Lookup.{LookupMode, lookup}
use wsldrive.Tree.Mutate.{
  upsert_path, remove, remove_path, set_attributes, rename, ensure_directory_path,
}
use wsldrive.Client.Cache.{drop_cached, drop_cached_prefix}
use wsldrive.Client.Mirror.{Mirror, note_mutation}

-- `type` and `payload` of a `Pending`.
pub record Reply : Type 0 where
  pub type : MsgType
  pub payload : Bytes

pub record Client (W : Type 0) : Type 0 where
  pub connection : W
  pub mirror : Mirror

-- An error that the agent names is passed on, unless its code is none of the program's.
unfoldable pub named_error : Result (ErrorMessage × Bytes) → Errc
named_error (err e) = protocol_error
named_error (ok (e, rest)) =
    if not (e.code == 0) && leb e.code (errc_code unauthorized)
    then errc_of e.code
    else protocol_error

-- What `request` makes of a reply.
unfoldable pub decoded : Result Reply → Result Reply
decoded (err e) = err e
decoded (ok p) =
    if p.type == MsgTypes.error
    then err (named_error (read_error p.payload))
    else if null p.payload && (p.type == MsgTypes.ping)
    then err connection_closed
    else ok p

-- `if ((*p)->type != ...) return fail(Errc::ProtocolError);`
unfoldable pub payload_of : MsgType → Result Reply → Result Bytes
payload_of type (err e) = err e
payload_of type (ok p) = if not (p.type == type) then err protocol_error else ok p.payload

unfoldable pub max_time : ℤ → ℤ → ℤ
max_time (pos a) (pos b) = if ltb a b then pos b else pos a
max_time (pos a) (negsuc b) = pos a
max_time (negsuc a) (pos b) = pos b
max_time (negsuc a) (negsuc b) = if ltb b a then negsuc b else negsuc a

unfoldable pub next_time : ℤ → ℤ
next_time (pos a) = pos (a + 1)
next_time (negsuc a) = if a == 0 then pos 0 else negsuc (a - 1)

-- Strictly newer even if the clock steps back.
unfoldable pub bump_mtime : ℤ → ℤ → ℤ
bump_mtime now previous = max_time now (next_time previous)

unfoldable pub read_created : Reader (Attributes × MutationAck)
read_created = do attr ← read_attributes; ack ← read_mutation_ack; pure (attr, ack)

unfoldable pub create_mirror : Bytes → Attributes → ℕ → Mirror → Mirror
create_mirror path attr generation m =
    note_mutation path generation (record m { tree = (upsert_path m.tree path attr).1 })

-- The mirror's entry of a file that has bytes up to `end` written to it.
unfoldable pub written_tree : ℤ → Bytes → ℕ → Option ℕ → MetadataTree → MetadataTree
written_tree now path end none t =
    (upsert_path t path
      (record { size = end; mtime_ns = bump_mtime now (pos 0); mode = 0o644; kind = file })).1
written_tree now path end (some id) t =
    let a = (node t.nodes id).attr in
    (set_attributes t id (record a {
      size = (if ltb a.size end then end else a.size);
      mtime_ns = bump_mtime now a.mtime_ns;
    })).1

unfoldable pub write_mirror : ℤ → Bytes → ℕ → WriteResponse → Mirror → Mirror
write_mirror now path offset resp m =
    let end = (offset + resp.written) % 2 ^ 64 in
    let dropped = record m { cache = drop_cached path m.cache } in
    note_mutation path resp.generation
      (record dropped { tree = written_tree now path end (lookup m.tree path m.mode) m.tree })

unfoldable pub truncated_tree : ℤ → ℕ → Option ℕ → MetadataTree → MetadataTree
truncated_tree now size none t = t
truncated_tree now size (some id) t =
    let a = (node t.nodes id).attr in
    (set_attributes t id (record a { size = size; mtime_ns = bump_mtime now a.mtime_ns })).1

unfoldable pub truncate_mirror : ℤ → Bytes → ℕ → ℕ → Mirror → Mirror
truncate_mirror now path size generation m =
    let dropped = record m { cache = drop_cached path m.cache } in
    note_mutation path generation
      (record dropped { tree = truncated_tree now size (lookup m.tree path m.mode) m.tree })

unfoldable pub unlink_mirror : Bytes → ℕ → Mirror → Mirror
unlink_mirror path generation m =
    let dropped = record m { cache = drop_cached path m.cache } in
    note_mutation path generation (record dropped { tree = (remove_path m.tree path m.mode).1 })

-- A directory takes its whole subtree out of the cache.
unfoldable pub rmdir_mirror : Bytes → ℕ → Mirror → Mirror
rmdir_mirror path generation m =
    let dropped = record m { cache = drop_cached_prefix path m.cache } in
    note_mutation path generation (record dropped { tree = (remove_path m.tree path m.mode).1 })

-- Whether the source of a move is a directory in the mirror.
unfoldable pub is_mirrored_dir : Option ℕ → MetadataTree → Bool
is_mirrored_dir none t = false
is_mirrored_dir (some id) t = is_dir (node t.nodes id)

-- What is in the way of node `id` is removed.
unfoldable pub clear_way : Option ℕ → Option ℕ → MetadataTree → MetadataTree
clear_way none id t = t
clear_way (some victim) none t = (remove t victim).1
clear_way (some victim) (some id) t = if victim == id then t else (remove t victim).1

-- The second try, where something occupies the destination again.
unfoldable pub renamed_tree :
    LookupMode → Bytes → Bytes → ℕ → ℕ → Result (Unit {0}) × MetadataTree → MetadataTree
renamed_tree mode nto leaf id dir (ok u, t) = t
renamed_tree mode nto leaf id dir (err e, t) =
    (rename (clear_way (lookup t nto mode) (some id) t) id dir leaf).1

unfoldable pub move_into : LookupMode → Bytes → Bytes → ℕ → Result ℕ × MetadataTree → MetadataTree
move_into mode nto leaf id (err e, t) = t
move_into mode nto leaf id (ok dir, t) = renamed_tree mode nto leaf id dir (rename t id dir leaf)

unfoldable pub move_tree : LookupMode → Bytes → Option ℕ → MetadataTree → MetadataTree
move_tree mode nto none t = t
move_tree mode nto (some id) t =
    let (parent, leaf) = split_parent nto in
    move_into mode nto leaf id
      (if null parent then (ok root, t) else ensure_directory_path t parent)

unfoldable pub rename_mirror : Bytes → Bytes → ℕ → Mirror → Mirror
rename_mirror from to generation m =
    let dropped = record m { cache = drop_cached to (drop_cached from m.cache) } in
    let nfrom = normalize_path from in
    let nto = normalize_path to in
    let id = lookup m.tree nfrom m.mode in
    let swept =
      (if is_mirrored_dir id m.tree
        then record dropped {
          cache = drop_cached_prefix nto (drop_cached_prefix nfrom dropped.cache);
        }
        else dropped) in
    let noted = note_mutation nto generation (note_mutation nfrom generation swept) in
    if bytes_eq nfrom nto then dropped else record noted {
      tree = move_tree m.mode nto id (clear_way (lookup m.tree nto m.mode) id m.tree);
    }

module _ {W : Type 0} (exchange : MsgType → Bytes → W → Result Reply × W) where
  -- A request, and the reader of the reply's payload.
  unfoldable pub ask :
      {A : Type 0} → MsgType → Bytes → MsgType → Reader A → W → Result (A × Bytes) × W
  ask type payload expected reader w =
      let (reply, after) = exchange type payload w in
      (elim (payload_of expected (decoded reply)) [ err e ↦ err e | ok body ↦ reader body ], after)

  -- A reply that has been read changes the mirror; an error does not.
  unfoldable pub settled :
      {A B : Type 0}
      → (A → B)
      → (A → Mirror → Mirror)
      → Mirror
      → Result (A × Bytes) × W
      → Result B × Client W
  settled result change m (err e, w) = (err e, record { connection = w; mirror = m })
  settled result change m (ok (a, rest), w) =
      (ok (result a), record { connection = w; mirror = change a m })

  unfoldable pub create_file : Bytes → ℕ → Client W → Result (Unit {0}) × Client W
  create_file path mode c =
      settled (λ (a : Attributes × MutationAck). tt)
        (λ (a : Attributes × MutationAck). create_mirror path a.0 a.1.generation) c.mirror
        (ask MsgTypes.create_request (write_create_request (record { path = path; mode = mode }))
          MsgTypes.create_response read_created c.connection)

  unfoldable pub write : ℤ → Bytes → ℕ → Bytes → Client W → Result ℕ × Client W
  write now path offset contents c =
      settled (λ (r : WriteResponse). r.written) (write_mirror now path offset) c.mirror
        (ask MsgTypes.write_request
          (write_write_request (record { path = path; offset = offset; contents = contents }))
          MsgTypes.write_response read_write_response c.connection)

  -- The requests whose reply is an acknowledgement.
  unfoldable pub acknowledged :
      MsgType → Bytes → (ℕ → Mirror → Mirror) → Client W → Result (Unit {0}) × Client W
  acknowledged type payload change c =
      settled (λ (a : MutationAck). tt) (λ (a : MutationAck). change a.generation) c.mirror
        (ask type payload MsgTypes.success read_mutation_ack c.connection)

  unfoldable pub truncate : ℤ → Bytes → ℕ → Client W → Result (Unit {0}) × Client W
  truncate now path size =
      acknowledged MsgTypes.truncate_request
        (write_truncate_request (record { path = path; size = size }))
        (truncate_mirror now path size)

  unfoldable pub mkdir : Bytes → ℕ → Client W → Result (Unit {0}) × Client W
  mkdir path mode =
      acknowledged MsgTypes.mkdir_request
        (write_mkdir_request (record { path = path; mode = mode }))
        (create_mirror path (record { size = 0; mtime_ns = pos 0; mode = mode; kind = directory }))

  unfoldable pub unlink : Bytes → Client W → Result (Unit {0}) × Client W
  unlink path =
      acknowledged MsgTypes.unlink_request (write_path_request (record { path = path }))
        (unlink_mirror path)

  unfoldable pub rmdir : Bytes → Client W → Result (Unit {0}) × Client W
  rmdir path =
      acknowledged MsgTypes.rmdir_request (write_path_request (record { path = path }))
        (rmdir_mirror path)

  unfoldable pub rename_path : Bytes → Bytes → Client W → Result (Unit {0}) × Client W
  rename_path from to =
      acknowledged MsgTypes.rename_request (write_rename_request (record { from = from; to = to }))
        (rename_mirror from to)
