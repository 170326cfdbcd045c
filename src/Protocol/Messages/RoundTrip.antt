-- ===== src/Protocol/Messages/RoundTrip.antt =====
-- Round trips of attributes, the handshake message and snapshots.
use mathlib.Core.Path.{subst}
use wsldrive.Prelude.{
  ℕ, ◌*◌, ◌^◌, ◌≤◌, ◌<◌, ◌≡◌, List, [], ◌∷◌, ◌++◌, Bytes, length, length-append, All, arith,
  append_assoc, ◌∙◌, le→leb,
}
use wsldrive.Types.{
  Attributes, AttributesInRange, ok, corrupt, node_kind_code, node_kind_of-code, node_kind_code-le,
}
use wsldrive.Protocol.Writer
use wsldrive.Protocol.Reader.{pure}
use wsldrive.Protocol.Reader.Law.{
  Reads, Reads-pure, Reads-bind, Reads-map, Reads-check, bind_ok, enough_ok,
}
use wsldrive.Protocol.Reader.Fixed.{
  u8-Reads, u32-Reads, u64-Reads, i64-Reads, length-u8, length-u32, length-i64,
}
use wsldrive.Protocol.Reader.Varint.{varint-Reads, string-Reads, length-varint, length-string}
use wsldrive.Protocol.Messages.{
  write_attributes, read_attributes, Hello, HelloInRange, write_hello, read_hello, SnapshotEntry,
  EntryInRange, write_snapshot_header, write_snapshot_entry, read_snapshot_header,
  read_snapshot_entry, read_entries, read_snapshot, write_entries,
}

-- `read_attributes` takes off exactly what `write_attributes` appends, for all attributes that the
-- C++ struct can hold.
pub read_attributes-Reads :
    (a : Attributes) → AttributesInRange a → Reads read_attributes (write_attributes a) a
unfolding read_attributes write_attributes
read_attributes-Reads a r =
    subst (λ k. Reads read_attributes (write_attributes a) (record a { kind = k }))
      (node_kind_of-code a.kind)
      (Reads-bind _ (u8-Reads (node_kind_code a.kind) (omega (arith, node_kind_code-le a.kind))) (
        Reads-check corrupt (le→leb _ _ (node_kind_code-le a.kind)) (
          Reads-bind _ (varint-Reads a.mode (omega (arith, r.mode_u32))) (
            Reads-check corrupt (le→leb _ _ (omega (arith, r.mode_u32))) (
              Reads-bind _ (varint-Reads a.size r.size_u64)
                (Reads-map _ (i64-Reads a.mtime_ns r.mtime_i64)))))))

-- The handshake message in range is read back as written, whatever follows it.
pub read_hello-Reads : (h : Hello) → HelloInRange h → Reads read_hello (write_hello h) h
unfolding read_hello write_hello
read_hello-Reads h r = Reads-bind _ (u32-Reads h.protocol_version r.version_u32) (
    Reads-bind _ (u64-Reads h.capabilities r.capabilities_u64) (
      Reads-bind _ (string-Reads h.agent r.agent_size) (
        Reads-bind _ (string-Reads h.nonce r.nonce_size)
          (Reads-map _ (string-Reads h.proof r.proof_size)))))

pub read_snapshot_entry-Reads :
    (e : SnapshotEntry) → EntryInRange e → Reads read_snapshot_entry (write_snapshot_entry e) e
unfolding read_snapshot_entry write_snapshot_entry
read_snapshot_entry-Reads e r = Reads-bind _ (u32-Reads e.parent r.parent_u32) (
    Reads-bind _ (read_attributes-Reads e.attr r.attr_range)
      (Reads-map _ (string-Reads e.name r.name_size)))

-- An encoded entry has at least 16 bytes, as `read_snapshot_header` assumes.
length-write_snapshot_entry : (e : SnapshotEntry) → 16 ≤ length (write_snapshot_entry e)
unfolding write_snapshot_entry write_attributes
length-write_snapshot_entry e = simp length-append (
    omega (
      arith,
      length-u32 e.parent,
      length-u8 (node_kind_code e.attr.kind),
      length-varint e.attr.mode,
      length-varint e.attr.size,
      length-i64 e.attr.mtime_ns,
      length-string e.name,
    ))

length-write_entries : (es : List SnapshotEntry) → length es * 16 ≤ length (write_entries es)
unfolding write_entries
length-write_entries [] = omega arith
length-write_entries (e ∷ es) = omega (
  arith,
  length-write_snapshot_entry e,
  length-write_entries es,
  length-append (write_snapshot_entry e) (write_entries es),
)

read_entries-Reads :
    (es : List SnapshotEntry)
    → All EntryInRange es
    → Reads (read_entries (length es)) (write_entries es) es
unfolding read_entries write_entries
read_entries-Reads [] r = Reads-pure []
read_entries-Reads (e ∷ es) r =
    Reads-bind _ (read_snapshot_entry-Reads e r.0) (Reads-map _ (read_entries-Reads es r.1))

-- The test of the count passes where that many entries follow.
read_snapshot_header_run :
    (gen count : ℕ) (more : Bytes)
    → gen < 2 ^ 64
    → count < 2 ^ 32
    → count * 16 ≤ length more
    → read_snapshot_header (write_snapshot_header gen count ++ more)
      ≡ ok (record { generation = gen; count = count }, more)
unfolding read_snapshot_header write_snapshot_header pure
read_snapshot_header_run gen count more hg hc enough =
    rw (append_assoc (Writer.u64 gen) (Writer.u32 count) more) (
      bind_ok _ _ _ ((u64-Reads gen hg).run (Writer.u32 count ++ more))
      ∙ bind_ok _ _ _ ((u32-Reads count hc).run more)
      ∙ enough_ok (count * 16) corrupt _ more enough)

-- A snapshot payload is read back whole: its generation and all its entries, in order.
pub read_snapshot-write_entries :
    (gen : ℕ) (es : List SnapshotEntry) (rest : Bytes)
    → gen < 2 ^ 64
    → length es < 2 ^ 32
    → All EntryInRange es
    → read_snapshot (write_snapshot_header gen (length es) ++ (write_entries es ++ rest))
      ≡ ok ((gen, es), rest)
unfolding read_snapshot
read_snapshot-write_entries gen es rest hg hc r =
    bind_ok _ _ _ (
      read_snapshot_header_run gen (length es) (write_entries es ++ rest) hg hc
        (omega (arith, length-write_entries es, length-append (write_entries es) rest)))
    ∙ (Reads-map (λ entries. (gen, entries)) (read_entries-Reads es r)).run rest
