-- ===== src/Examples/Wire.antt =====
-- Runs of the wire protocol.
use wsldrive.Prelude.{◌≡◌, refl, true, false, List, [], ◌∷◌, ◌++◌, arith}
use wsldrive.Prelude.Int.{negsuc}
use wsldrive.Types.{
  Attributes, ok, err, truncated, corrupt, file, directory, upsert, remove, created, moved_from,
}
use wsldrive.Protocol.Writer
use wsldrive.Protocol.Reader
use wsldrive.Protocol.Header.{FrameHeader}
use wsldrive.Protocol.Messages.{
  Hello, SnapshotEntry, write_snapshot_header, write_entries, read_snapshot,
}
use wsldrive.Protocol.Messages.RoundTrip.{read_snapshot-write_entries}
use wsldrive.Protocol.Requests.{WriteRequest}
use wsldrive.Protocol.Invalidations.{
  InvalidationBatch, write_invalidation, read_invalidation, normalise_op,
}
use wsldrive.Protocol.Invalidations.RoundTrip.{read_invalidation-write_invalidation}
use wsldrive.Protocol.Bulk.{ReadManyItem}

varint_300 : Writer.varint 300 ≡ 0xac ∷ 0x02 ∷ []
unfolding Writer.varint Writer.varint_loop
varint_300 = refl

-- The tenth byte may carry one bit only.
varint_too_wide :
    Reader.varint (0xff ∷ 0xff ∷ 0xff ∷ 0xff ∷ 0xff ∷ 0xff ∷ 0xff ∷ 0xff ∷ 0xff ∷ 2 ∷ [])
    ≡ err corrupt
unfolding Reader.varint Reader.varint_loop
varint_too_wide = refl

varint_cut : Reader.varint (0x80 ∷ []) ≡ err truncated
unfolding Reader.varint Reader.varint_loop
varint_cut = refl

u32_bytes : Writer.u32 0x01020304 ≡ 4 ∷ 3 ∷ 2 ∷ 1 ∷ []
unfolding Writer.u32 Writer.put_le Writer.put_le_from
u32_bytes = refl

abbrev ping : FrameHeader
ping = record { type = 9; flags = 0; payload_len = 0; request_id = 7 }

abbrev some_file : Attributes
some_file = record { size = 5; mtime_ns = negsuc 9; mode = 420; kind = file }

abbrev greeting : Hello
greeting = record {
  protocol_version = 4;
  capabilities = 0;
  agent = b'a' ∷ [];
  nonce = b'n' ∷ b'o' ∷ [];
  proof = [];
}

abbrev entries : List SnapshotEntry
entries =
    (record { parent = 0; name = b'a' ∷ []; attr = record some_file { kind = directory } })
    ∷ (record { parent = 1; name = b'b' ∷ []; attr = some_file })
    ∷ []

read_snapshot-write_entries_example :
    read_snapshot (write_snapshot_header 3 2 ++ (write_entries entries ++ []))
    ≡ ok ((3, entries), [])
read_snapshot-write_entries_example =
    read_snapshot-write_entries 3 entries [] (omega arith) (omega arith) (omega arith)

abbrev a_write : WriteRequest
a_write = record { path = b'f' ∷ []; offset = 9; contents = 1 ∷ 2 ∷ 3 ∷ [] }

abbrev batch : InvalidationBatch
batch = record {
  generation = 12;
  ops =
      (record { kind = upsert; path = b'x' ∷ []; attr = some_file; change = created; cookie = 0 })
      ∷ (record {
        kind = remove;
        path = b'y' ∷ [];
        attr = some_file;
        change = moved_from;
        cookie = 77;
      })
      ∷ [];
}

read_invalidation-write_invalidation_example :
    read_invalidation (write_invalidation batch ++ [])
    ≡ ok (
      record {
        generation = 12;
        ops =
            normalise_op (record {
              kind = upsert;
              path = b'x' ∷ [];
              attr = some_file;
              change = created;
              cookie = 0;
            })
            ∷ normalise_op (record {
              kind = remove;
              path = b'y' ∷ [];
              attr = some_file;
              change = moved_from;
              cookie = 77;
            })
            ∷ [];
      },
      [],
    )
read_invalidation-write_invalidation_example =
    read_invalidation-write_invalidation batch [] (omega arith) (omega arith) (omega arith)

abbrev items : List ReadManyItem
items =
    (record { present = true; contents = 8 ∷ 9 ∷ [] })
    ∷ (record { present = false; contents = [] })
    ∷ []
