-- ===== src/Protocol/Requests.antt =====
-- src/core/protocol.hpp and protocol.cpp: the requests and replies with fixed fields.
pub mod RoundTrip
use wsldrive.Prelude.{ℕ, ◌^◌, ◌<◌, ◌++◌, Bytes, length, leb}
use wsldrive.Types.{corrupt}
use wsldrive.Protocol.Writer
use wsldrive.Protocol.Reader
use wsldrive.Protocol.Reader.{Reader, pure, ◌>>=◌, ◌>>◌, check}

-- The values that fields of type uint32, uint64 and string view can hold.
abbrev pub U32 : ℕ → Type 0
U32 v = v < 2 ^ 32

abbrev pub U64 : ℕ → Type 0
U64 v = v < 2 ^ 64

abbrev pub Sized : Bytes → Type 0
Sized s = length s < 2 ^ 64

pub record ReadRequest : Type 0 where
  pub path : Bytes
  pub offset : ℕ
  pub len : ℕ

unfoldable pub write_read_request : ReadRequest → Bytes
write_read_request q = Writer.u64 q.offset ++ (Writer.u32 q.len ++ Writer.string q.path)

unfoldable pub read_read_request : Reader ReadRequest
read_read_request = do
  off ← Reader.u64
  len ← Reader.u32
  path ← Reader.string
  pure (record { path = path; offset = off; len = len })

pub record ReadResponse : Type 0 where
  pub file_size : ℕ
  pub contents : Bytes

unfoldable pub write_read_response : ReadResponse → Bytes
write_read_response p = Writer.u64 p.file_size ++ Writer.blob p.contents

unfoldable pub read_read_response : Reader ReadResponse
read_read_response = do
  size ← Reader.u64
  contents ← Reader.blob
  pure (record { file_size = size; contents = contents })

pub record ErrorMessage : Type 0 where
  pub code : ℕ
  pub detail : Bytes

unfoldable pub write_error : ErrorMessage → Bytes
write_error e = Writer.u32 e.code ++ Writer.string e.detail

unfoldable pub read_error : Reader ErrorMessage
read_error = do
  code ← Reader.u32
  detail ← Reader.string
  pure (record { code = code; detail = detail })

pub record WriteRequest : Type 0 where
  pub path : Bytes
  pub offset : ℕ
  pub contents : Bytes

unfoldable pub write_write_request : WriteRequest → Bytes
write_write_request q = Writer.u64 q.offset ++ (Writer.string q.path ++ Writer.blob q.contents)

unfoldable pub read_write_request : Reader WriteRequest
read_write_request = do
  off ← Reader.u64
  path ← Reader.string
  contents ← Reader.blob
  pure (record { path = path; offset = off; contents = contents })

pub record WriteResponse : Type 0 where
  pub written : ℕ
  pub generation : ℕ

unfoldable pub write_write_response : WriteResponse → Bytes
write_write_response p = Writer.u64 p.written ++ Writer.u64 p.generation

unfoldable pub read_write_response : Reader WriteResponse
read_write_response = do
  n ← Reader.u64
  g ← Reader.u64
  pure (record { written = n; generation = g })

pub record MutationAck : Type 0 where
  pub generation : ℕ

unfoldable pub write_mutation_ack : MutationAck → Bytes
write_mutation_ack a = Writer.u64 a.generation

unfoldable pub read_mutation_ack : Reader MutationAck
read_mutation_ack = do g ← Reader.u64; pure (record { generation = g })

-- `CreateRequest` and `MkdirRequest` have the same two fields and the same encoding.
pub record CreateRequest : Type 0 where
  pub path : Bytes
  pub mode : ℕ

unfoldable pub write_create_request : CreateRequest → Bytes
write_create_request q = Writer.varint q.mode ++ Writer.string q.path

unfoldable pub read_create_request : Reader CreateRequest
read_create_request = do
  mode ← Reader.varint
  check (leb mode 0xFFFFFFFF) corrupt
  path ← Reader.string
  pure (record { path = path; mode = mode })

pub record MkdirRequest : Type 0 where
  pub path : Bytes
  pub mode : ℕ

unfoldable pub write_mkdir_request : MkdirRequest → Bytes
write_mkdir_request q = Writer.varint q.mode ++ Writer.string q.path

unfoldable pub read_mkdir_request : Reader MkdirRequest
read_mkdir_request = do
  mode ← Reader.varint
  check (leb mode 0xFFFFFFFF) corrupt
  path ← Reader.string
  pure (record { path = path; mode = mode })

pub record PathRequest : Type 0 where
  pub path : Bytes

unfoldable pub write_path_request : PathRequest → Bytes
write_path_request q = Writer.string q.path

unfoldable pub read_path_request : Reader PathRequest
read_path_request = do path ← Reader.string; pure (record { path = path })

pub record TruncateRequest : Type 0 where
  pub path : Bytes
  pub size : ℕ

unfoldable pub write_truncate_request : TruncateRequest → Bytes
write_truncate_request q = Writer.u64 q.size ++ Writer.string q.path

unfoldable pub read_truncate_request : Reader TruncateRequest
read_truncate_request = do
  size ← Reader.u64
  path ← Reader.string
  pure (record { path = path; size = size })

pub record RenameRequest : Type 0 where
  pub from : Bytes
  pub to : Bytes

unfoldable pub write_rename_request : RenameRequest → Bytes
write_rename_request q = Writer.string q.from ++ Writer.string q.to

unfoldable pub read_rename_request : Reader RenameRequest
read_rename_request = do
  from ← Reader.string
  to ← Reader.string
  pure (record { from = from; to = to })

pub record ReadlinkResponse : Type 0 where
  pub target : Bytes

unfoldable pub write_readlink_response : ReadlinkResponse → Bytes
write_readlink_response p = Writer.string p.target

unfoldable pub read_readlink_response : Reader ReadlinkResponse
read_readlink_response = do t ← Reader.string; pure (record { target = t })
