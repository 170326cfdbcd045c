-- ===== src/Protocol/Messages.antt =====
-- src/core/protocol.hpp and protocol.cpp: attributes, the handshake message and snapshots.
pub mod RoundTrip
use wsldrive.Prelude.{
  ℕ, zero, suc, ◌*◌, ◌-◌, ◌^◌, ◌<◌, List, [], ◌∷◌, ◌++◌, Bytes, length, leb, All,
}
use wsldrive.Types.{Attributes, AttributesInRange, corrupt, node_kind_code, node_kind_of}
use wsldrive.Protocol.Writer
use wsldrive.Protocol.Reader
use wsldrive.Protocol.Reader.{Reader, pure, ◌>>=◌, ◌>>◌, check, remaining}

unfoldable pub write_attributes : Attributes → Bytes
write_attributes a =
    Writer.u8 (node_kind_code a.kind)
    ++ (Writer.varint a.mode ++ (Writer.varint a.size ++ Writer.i64 a.mtime_ns))

unfoldable pub read_attributes : Reader Attributes
read_attributes = do
  kind ← Reader.u8
  check (leb kind 3) corrupt
  mode ← Reader.varint
  check (leb mode 0xFFFFFFFF) corrupt
  size ← Reader.varint
  mtime ← Reader.i64
  pure (record { size = size; mtime_ns = mtime; mode = mode; kind = node_kind_of kind })

pub record Hello : Type 0 where
  pub protocol_version : ℕ
  pub capabilities : ℕ
  pub agent : Bytes
  pub nonce : Bytes
  pub proof : Bytes

pub record HelloInRange (h : Hello) : Type 0 where
  pub version_u32 : h.protocol_version < 2 ^ 32
  pub capabilities_u64 : h.capabilities < 2 ^ 64
  pub agent_size : length h.agent < 2 ^ 64
  pub nonce_size : length h.nonce < 2 ^ 64
  pub proof_size : length h.proof < 2 ^ 64

unfoldable pub write_hello : Hello → Bytes
write_hello h =
    Writer.u32 h.protocol_version
    ++ (Writer.u64 h.capabilities
        ++ (Writer.string h.agent ++ (Writer.string h.nonce ++ Writer.string h.proof)))

unfoldable pub read_hello : Reader Hello
read_hello = do
  v ← Reader.u32
  caps ← Reader.u64
  agent ← Reader.string
  nonce ← Reader.string
  proof ← Reader.string
  pure (record {
    protocol_version = v;
    capabilities = caps;
    agent = agent;
    nonce = nonce;
    proof = proof;
  })

-- One entry of a snapshot: `parent` is 0 for the root and k for the k-th entry.
pub record SnapshotEntry : Type 0 where
  pub parent : ℕ
  pub name : Bytes
  pub attr : Attributes

pub record EntryInRange (e : SnapshotEntry) : Type 0 where
  pub parent_u32 : e.parent < 2 ^ 32
  pub name_size : length e.name < 2 ^ 64
  pub attr_range : AttributesInRange e.attr

pub record SnapshotHeader : Type 0 where
  pub generation : ℕ
  pub count : ℕ

unfoldable pub write_snapshot_header : ℕ → ℕ → Bytes
write_snapshot_header generation count = Writer.u64 generation ++ Writer.u32 count

unfoldable pub write_snapshot_entry : SnapshotEntry → Bytes
write_snapshot_entry e = Writer.u32 e.parent ++ (write_attributes e.attr ++ Writer.string e.name)

unfoldable pub read_snapshot_header : Reader SnapshotHeader
read_snapshot_header = do
  gen ← Reader.u64
  count ← Reader.u32
  left ← remaining
  check (leb (count * 16) left) corrupt
  pure (record { generation = gen; count = count })

unfoldable pub read_snapshot_entry : Reader SnapshotEntry
read_snapshot_entry = do
  parent ← Reader.u32
  attr ← read_attributes
  name ← Reader.string
  pure (record { parent = parent; name = name; attr = attr })

-- The entries that the callback of `read_snapshot` is given, in order.
unfoldable pub read_entries : ℕ → Reader (List SnapshotEntry)
read_entries zero = pure []
read_entries (suc n) = do e ← read_snapshot_entry; rest ← read_entries n; pure (e ∷ rest)

unfoldable pub read_snapshot : Reader (ℕ × List SnapshotEntry)
read_snapshot = do
  hdr ← read_snapshot_header
  entries ← read_entries hdr.count
  pure (hdr.generation, entries)

-- What the agent sends: a header with the count, then the entries.
unfoldable pub write_entries : List SnapshotEntry → Bytes
write_entries [] = []
write_entries (e ∷ es) = write_snapshot_entry e ++ write_entries es
