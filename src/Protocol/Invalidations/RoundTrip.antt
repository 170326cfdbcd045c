-- ===== src/Protocol/Invalidations/RoundTrip.antt =====
-- A batch of invalidations is read back, up to the fields that the encoding leaves out.
use mathlib.Core.Path.{subst}
use wsldrive.Prelude.{
  ℕ, ◌^◌, ◌<◌, ◌≤◌, ◌≡◌, sym, ◌∙◌, Bool, true, false, List, [], ◌∷◌, ◌++◌, map, Bytes, length,
  length-append, append_assoc, All, arith, le→leb, if◌then◌else◌,
}
use wsldrive.Types.{
  Attributes, AttributesInRange, InvalidationKind, ChangeKind, is_move, ok, corrupt,
  invalidation_kind_code, invalidation_kind_of, invalidation_kind_of-code,
  invalidation_kind_code-le, change_kind_code, change_kind_of, change_kind_of-code,
  change_kind_code-le,
}
use wsldrive.Protocol.Writer
use wsldrive.Protocol.Reader.Law.{
  Reads, Reads-pure, Reads-bind, Reads-map, Reads-check, bind_ok, enough_ok,
}
use wsldrive.Protocol.Reader.Fixed.{u8-Reads, u32-Reads, u64-Reads, length-u8}
use wsldrive.Protocol.Reader.Varint.{varint-Reads, string-Reads}
use wsldrive.Protocol.Reader
use wsldrive.Protocol.Reader.{pure}
use wsldrive.Protocol.Messages.{write_attributes, read_attributes}
use wsldrive.Protocol.Messages.RoundTrip.{read_attributes-Reads}
use wsldrive.Protocol.Invalidations.{
  InvalidationOp, InvalidationBatch, default_attributes, is_upsert, write_invalidation_op,
  write_ops, write_invalidation, read_op_attr, read_op_cookie, read_invalidation_op, read_ops,
  read_invalidation, OpInRange, normalise_op,
}

read_op_attr-Reads :
    (kind : InvalidationKind) (a : Attributes)
    → AttributesInRange a
    → Reads
        (read_op_attr kind)
        (if is_upsert kind then write_attributes a else [])
        (if is_upsert kind then a else default_attributes)
unfolding read_op_attr
read_op_attr-Reads kind a r = by_flag (is_upsert kind)
  where
    by_flag :
        (b : Bool)
        → Reads
            (if b then read_attributes else pure default_attributes)
            (if b then write_attributes a else [])
            (if b then a else default_attributes)
    by_flag true = read_attributes-Reads a r
    by_flag false = Reads-pure default_attributes

read_op_cookie-Reads :
    (change : ChangeKind) (cookie : ℕ)
    → cookie < 2 ^ 32
    → Reads
        (read_op_cookie change)
        (if is_move change then Writer.u32 cookie else [])
        (if is_move change then cookie else 0)
unfolding read_op_cookie
read_op_cookie-Reads change cookie h = by_flag (is_move change)
  where
    by_flag :
        (b : Bool)
        → Reads
            (if b then Reader.u32 else pure 0)
            (if b then Writer.u32 cookie else [])
            (if b then cookie else 0)
    by_flag true = u32-Reads cookie h
    by_flag false = Reads-pure 0

-- The two enum fields after the casts to a code and back, the others as the encoding keeps them.
recoded : InvalidationOp → InvalidationOp
recoded op = record {
  kind = invalidation_kind_of (invalidation_kind_code op.kind);
  path = op.path;
  attr = if is_upsert op.kind then op.attr else default_attributes;
  change = change_kind_of (change_kind_code op.change);
  cookie = if is_move op.change then op.cookie else 0;
}

recoded_lem : (op : InvalidationOp) → recoded op ≡ normalise_op op
unfolding recoded normalise_op
recoded_lem op = ground (arith, invalidation_kind_of-code op.kind, change_kind_of-code op.change)

read_recoded-Reads :
    (op : InvalidationOp)
    → OpInRange op
    → Reads read_invalidation_op (write_invalidation_op op) (recoded op)
unfolding read_invalidation_op write_invalidation_op recoded
read_recoded-Reads op r =
    Reads-bind _
      (u8-Reads (invalidation_kind_code op.kind) (omega (arith, invalidation_kind_code-le op.kind)))
      (Reads-check corrupt (le→leb _ _ (invalidation_kind_code-le op.kind)) (
        Reads-bind _ (string-Reads op.path r.path_size) (
          Reads-bind _ attr (
            Reads-bind _
              (u8-Reads (change_kind_code op.change) (omega (arith, change_kind_code-le op.change)))
              (Reads-check corrupt (le→leb _ _ (change_kind_code-le op.change))
                (Reads-map _ cookie))))))
  where
    attr :
        Reads
          (read_op_attr (invalidation_kind_of (invalidation_kind_code op.kind)))
          (if is_upsert op.kind then write_attributes op.attr else [])
          (if is_upsert op.kind then op.attr else default_attributes)
    attr =
        subst
          (λ k.
            Reads (read_op_attr k) (if is_upsert op.kind then write_attributes op.attr else [])
              (if is_upsert op.kind then op.attr else default_attributes))
          (sym (invalidation_kind_of-code op.kind))
          (read_op_attr-Reads op.kind op.attr r.attr_range)

    cookie :
        Reads
          (read_op_cookie (change_kind_of (change_kind_code op.change)))
          (if is_move op.change then Writer.u32 op.cookie else [])
          (if is_move op.change then op.cookie else 0)
    cookie =
        subst
          (λ c.
            Reads (read_op_cookie c) (if is_move op.change then Writer.u32 op.cookie else [])
              (if is_move op.change then op.cookie else 0))
          (sym (change_kind_of-code op.change))
          (read_op_cookie-Reads op.change op.cookie r.cookie_u32)

pub read_invalidation_op-Reads :
    (op : InvalidationOp)
    → OpInRange op
    → Reads read_invalidation_op (write_invalidation_op op) (normalise_op op)
read_invalidation_op-Reads op r =
    subst (Reads read_invalidation_op (write_invalidation_op op)) (recoded_lem op)
      (read_recoded-Reads op r)

read_ops-Reads :
    (ops : List InvalidationOp)
    → All OpInRange ops
    → Reads (read_ops (length ops)) (write_ops ops) (map normalise_op ops)
unfolding read_ops write_ops
read_ops-Reads [] r = Reads-pure []
read_ops-Reads (op ∷ ops) r =
    Reads-bind _ (read_invalidation_op-Reads op r.0) (Reads-map _ (read_ops-Reads ops r.1))

length-write_ops : (ops : List InvalidationOp) → length ops ≤ length (write_ops ops)
unfolding write_ops write_invalidation_op
length-write_ops [] = omega arith
length-write_ops (op ∷ ops) =
    simp length-append
      (omega (arith, length-u8 (invalidation_kind_code op.kind), length-write_ops ops))

-- `read_invalidation` reads back the generation and every operation of a batch, in order, with
-- the attributes of an upsert and the cookie of a move half; for the other operations those two
-- fields, which the encoding leaves out, come back with their defaults.
pub read_invalidation-write_invalidation :
    (b : InvalidationBatch) (rest : Bytes)
    → b.generation < 2 ^ 64
    → length b.ops < 2 ^ 64
    → All OpInRange b.ops
    → read_invalidation (write_invalidation b ++ rest)
      ≡ ok (record { generation = b.generation; ops = map normalise_op b.ops }, rest)
unfolding read_invalidation write_invalidation
read_invalidation-write_invalidation b rest hg hn r =
    rw
      (
        append_assoc (Writer.u64 b.generation) (Writer.varint (length b.ops) ++ write_ops b.ops)
            rest,
        append_assoc (Writer.varint (length b.ops)) (write_ops b.ops) rest,
      )
      (bind_ok _ _ _ ((u64-Reads b.generation hg).run _)
        ∙ bind_ok _ _ _ ((varint-Reads (length b.ops) hn).run _)
        ∙ enough_ok (length b.ops) corrupt _ (write_ops b.ops ++ rest) fits
        ∙ (Reads-map (λ ops. record { generation = b.generation; ops = ops })
              (read_ops-Reads b.ops r)).run
            rest)
  where
    fits : length b.ops ≤ length (write_ops b.ops ++ rest)
    fits = omega (arith, length-write_ops b.ops, length-append (write_ops b.ops) rest)
