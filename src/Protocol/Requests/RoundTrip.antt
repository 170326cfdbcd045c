-- ===== src/Protocol/Requests/RoundTrip.antt =====
-- Every request and reply with fixed fields is read back as it was written.
use wsldrive.Prelude.{arith, le→leb}
use wsldrive.Types.{corrupt}
use wsldrive.Protocol.Reader.Law.{Reads, Reads-bind, Reads-map, Reads-check}
use wsldrive.Protocol.Reader.Fixed.{u32-Reads, u64-Reads}
use wsldrive.Protocol.Reader.Varint.{varint-Reads, string-Reads, blob-Reads}
use wsldrive.Protocol.Requests.{
  U32, U64, Sized, ReadRequest, write_read_request, read_read_request, ReadResponse,
  write_read_response, read_read_response, ErrorMessage, write_error, read_error, WriteRequest,
  write_write_request, read_write_request, WriteResponse, write_write_response, read_write_response,
  MutationAck, write_mutation_ack, read_mutation_ack, CreateRequest, write_create_request,
  read_create_request, MkdirRequest, write_mkdir_request, read_mkdir_request, PathRequest,
  write_path_request, read_path_request, TruncateRequest, write_truncate_request,
  read_truncate_request, RenameRequest, write_rename_request, read_rename_request, ReadlinkResponse,
  write_readlink_response, read_readlink_response,
}

pub read_read_request-Reads :
    (q : ReadRequest)
    → U64 q.offset
    → U32 q.len
    → Sized q.path
    → Reads read_read_request (write_read_request q) q
unfolding read_read_request write_read_request
read_read_request-Reads q off len path =
    Reads-bind _ (u64-Reads q.offset off)
      (Reads-bind _ (u32-Reads q.len len) (Reads-map _ (string-Reads q.path path)))

pub read_read_response-Reads :
    (p : ReadResponse)
    → U64 p.file_size
    → Sized p.contents
    → Reads read_read_response (write_read_response p) p
unfolding read_read_response write_read_response
read_read_response-Reads p size contents =
    Reads-bind _ (u64-Reads p.file_size size) (Reads-map _ (blob-Reads p.contents contents))

pub read_error-Reads :
    (e : ErrorMessage) → U32 e.code → Sized e.detail → Reads read_error (write_error e) e
unfolding read_error write_error
read_error-Reads e code detail =
    Reads-bind _ (u32-Reads e.code code) (Reads-map _ (string-Reads e.detail detail))

-- The write request in range is read back as written, whatever follows it.
pub read_write_request-Reads :
    (q : WriteRequest)
    → U64 q.offset
    → Sized q.path
    → Sized q.contents
    → Reads read_write_request (write_write_request q) q
unfolding read_write_request write_write_request
read_write_request-Reads q off path contents =
    Reads-bind _ (u64-Reads q.offset off)
      (Reads-bind _ (string-Reads q.path path) (Reads-map _ (blob-Reads q.contents contents)))

pub read_write_response-Reads :
    (p : WriteResponse)
    → U64 p.written
    → U64 p.generation
    → Reads read_write_response (write_write_response p) p
unfolding read_write_response write_write_response
read_write_response-Reads p written gen =
    Reads-bind _ (u64-Reads p.written written) (Reads-map _ (u64-Reads p.generation gen))

pub read_mutation_ack-Reads :
    (a : MutationAck) → U64 a.generation → Reads read_mutation_ack (write_mutation_ack a) a
unfolding read_mutation_ack write_mutation_ack
read_mutation_ack-Reads a gen = Reads-map _ (u64-Reads a.generation gen)

pub read_create_request-Reads :
    (q : CreateRequest)
    → U32 q.mode
    → Sized q.path
    → Reads read_create_request (write_create_request q) q
unfolding read_create_request write_create_request
read_create_request-Reads q mode path =
    Reads-bind _ (varint-Reads q.mode (omega arith))
      (Reads-check corrupt (le→leb _ _ (omega arith)) (Reads-map _ (string-Reads q.path path)))

pub read_mkdir_request-Reads :
    (q : MkdirRequest)
    → U32 q.mode
    → Sized q.path
    → Reads read_mkdir_request (write_mkdir_request q) q
unfolding read_mkdir_request write_mkdir_request
read_mkdir_request-Reads q mode path =
    Reads-bind _ (varint-Reads q.mode (omega arith))
      (Reads-check corrupt (le→leb _ _ (omega arith)) (Reads-map _ (string-Reads q.path path)))

pub read_path_request-Reads :
    (q : PathRequest) → Sized q.path → Reads read_path_request (write_path_request q) q
unfolding read_path_request write_path_request
read_path_request-Reads q path = Reads-map _ (string-Reads q.path path)

pub read_truncate_request-Reads :
    (q : TruncateRequest)
    → U64 q.size
    → Sized q.path
    → Reads read_truncate_request (write_truncate_request q) q
unfolding read_truncate_request write_truncate_request
read_truncate_request-Reads q size path =
    Reads-bind _ (u64-Reads q.size size) (Reads-map _ (string-Reads q.path path))

pub read_rename_request-Reads :
    (q : RenameRequest)
    → Sized q.from
    → Sized q.to
    → Reads read_rename_request (write_rename_request q) q
unfolding read_rename_request write_rename_request
read_rename_request-Reads q from to =
    Reads-bind _ (string-Reads q.from from) (Reads-map _ (string-Reads q.to to))

pub read_readlink_response-Reads :
    (p : ReadlinkResponse)
    → Sized p.target
    → Reads read_readlink_response (write_readlink_response p) p
unfolding read_readlink_response write_readlink_response
read_readlink_response-Reads p target = Reads-map _ (string-Reads p.target target)
