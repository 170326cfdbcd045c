-- ===== src/Protocol/Invalidations.antt =====
-- src/core/protocol.hpp and protocol.cpp: batches of invalidation operations.
pub mod RoundTrip
use wsldrive.Prelude.{
  ℕ, zero, suc, ◌^◌, ◌<◌, Bool, true, false, List, [], ◌∷◌, ◌++◌, Bytes, length, leb, if◌then◌else◌,
}
use wsldrive.Prelude.Int.{pos}
use wsldrive.Types.{
  Attributes, AttributesInRange, InvalidationKind, upsert, ChangeKind, is_move, corrupt, file,
  invalidation_kind_code, invalidation_kind_of, change_kind_code, change_kind_of,
}
use wsldrive.Protocol.Writer
use wsldrive.Protocol.Reader
use wsldrive.Protocol.Reader.{Reader, pure, ◌>>=◌, ◌>>◌, check, remaining}
use wsldrive.Protocol.Messages.{write_attributes, read_attributes}

pub record InvalidationOp : Type 0 where
  pub kind : InvalidationKind
  pub path : Bytes
  pub attr : Attributes
  pub change : ChangeKind
  pub cookie : ℕ

pub record InvalidationBatch : Type 0 where
  pub generation : ℕ
  pub ops : List InvalidationOp

-- `Attributes a;`
abbrev pub default_attributes : Attributes
default_attributes = record { size = 0; mtime_ns = pos 0; mode = 0; kind = file }

unfoldable pub is_upsert : InvalidationKind → Bool
is_upsert upsert = true
is_upsert _ = false

unfoldable pub write_invalidation_op : InvalidationOp → Bytes
write_invalidation_op op =
    Writer.u8 (invalidation_kind_code op.kind)
    ++ (Writer.string op.path
        ++ ((if is_upsert op.kind then write_attributes op.attr else [])
            ++ (Writer.u8 (change_kind_code op.change)
                ++ (if is_move op.change then Writer.u32 op.cookie else []))))

unfoldable pub write_ops : List InvalidationOp → Bytes
write_ops [] = []
write_ops (op ∷ ops) = write_invalidation_op op ++ write_ops ops

unfoldable pub write_invalidation : InvalidationBatch → Bytes
write_invalidation b = Writer.u64 b.generation ++ (Writer.varint (length b.ops) ++ write_ops b.ops)

-- The attributes are read for an upsert, and keep their default otherwise.
unfoldable pub read_op_attr : InvalidationKind → Reader Attributes
read_op_attr kind = if is_upsert kind then read_attributes else pure default_attributes

unfoldable pub read_op_cookie : ChangeKind → Reader ℕ
read_op_cookie change = if is_move change then Reader.u32 else pure 0

unfoldable pub read_invalidation_op : Reader InvalidationOp
read_invalidation_op = do
  kind ← Reader.u8
  check (leb kind 2) corrupt
  path ← Reader.string
  attr ← read_op_attr (invalidation_kind_of kind)
  change ← Reader.u8
  check (leb change 5) corrupt
  cookie ← read_op_cookie (change_kind_of change)
  pure (record {
    kind = invalidation_kind_of kind;
    path = path;
    attr = attr;
    change = change_kind_of change;
    cookie = cookie;
  })

unfoldable pub read_ops : ℕ → Reader (List InvalidationOp)
read_ops zero = pure []
read_ops (suc n) = do op ← read_invalidation_op; ops ← read_ops n; pure (op ∷ ops)

unfoldable pub read_invalidation : Reader InvalidationBatch
read_invalidation = do
  gen ← Reader.u64
  count ← Reader.varint
  left ← remaining
  check (leb count left) corrupt
  ops ← read_ops count
  pure (record { generation = gen; ops = ops })

-- What the struct's fields can hold.
pub record OpInRange (op : InvalidationOp) : Type 0 where
  pub path_size : length op.path < 2 ^ 64
  pub attr_range : AttributesInRange op.attr
  pub cookie_u32 : op.cookie < 2 ^ 32

-- What the encoding keeps of an operation: attributes of an upsert, the cookie of a move.
unfoldable pub normalise_op : InvalidationOp → InvalidationOp
normalise_op op = record op {
  attr = if is_upsert op.kind then op.attr else default_attributes;
  cookie = if is_move op.change then op.cookie else 0;
}
