-- ===== src/Protocol/Bulk.antt =====
-- src/core/protocol.hpp and protocol.cpp: the bulk read request and its reply.
pub mod RoundTrip
use wsldrive.Prelude.{
  ℕ, zero, suc, ◌^◌, ◌<◌, Bool, true, false, not, List, [], ◌∷◌, ◌++◌, Bytes, length, leb, ◌==◌,
  if◌then◌else◌,
}
use wsldrive.Types.{corrupt, invalid_argument}
use wsldrive.Protocol.Writer
use wsldrive.Protocol.Reader
use wsldrive.Protocol.Reader.{Reader, pure, ◌>>=◌, ◌>>◌, check, remaining}

abbrev pub max_read_many_paths : ℕ
max_read_many_paths = 4096

unfoldable pub write_paths : List Bytes → Bytes
write_paths [] = []
write_paths (p ∷ ps) = Writer.string p ++ write_paths ps

-- A `ReadManyRequest` is its list of paths.
unfoldable pub write_read_many_request : List Bytes → Bytes
write_read_many_request paths = Writer.varint (length paths) ++ write_paths paths

unfoldable pub read_paths : ℕ → Reader (List Bytes)
read_paths zero = pure []
read_paths (suc n) = do p ← Reader.string; ps ← read_paths n; pure (p ∷ ps)

unfoldable pub read_read_many_request : Reader (List Bytes)
read_read_many_request = do
  count ← Reader.varint
  left ← remaining
  check (leb count left) corrupt
  check (leb count max_read_many_paths) invalid_argument
  read_paths count

-- `contents` is meaningful where `ok` is set, and empty otherwise.
pub record ReadManyItem : Type 0 where
  pub present : Bool
  pub contents : Bytes

unfoldable pub write_item : ReadManyItem → Bytes
write_item it =
    Writer.u8 (if it.present then 1 else 0) ++ (if it.present then Writer.blob it.contents else [])

unfoldable pub write_items : List ReadManyItem → Bytes
write_items [] = []
write_items (it ∷ its) = write_item it ++ write_items its

-- A `ReadManyResponse` is its list of items.
unfoldable pub write_read_many_response : List ReadManyItem → Bytes
write_read_many_response items = Writer.varint (length items) ++ write_items items

unfoldable pub read_contents : Bool → Reader Bytes
read_contents present = if present then Reader.blob else pure []

unfoldable pub read_item : Reader ReadManyItem
read_item = do
  flag ← Reader.u8
  contents ← read_contents (not (flag == 0))
  pure (record { present = not (flag == 0); contents = contents })

unfoldable pub read_items : ℕ → Reader (List ReadManyItem)
read_items zero = pure []
read_items (suc n) = do it ← read_item; its ← read_items n; pure (it ∷ its)

unfoldable pub read_read_many_response : Reader (List ReadManyItem)
read_read_many_response = do
  count ← Reader.varint
  left ← remaining
  check (leb count left) corrupt
  read_items count
