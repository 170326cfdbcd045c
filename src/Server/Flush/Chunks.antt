-- ===== src/Server/Flush/Chunks.antt =====
-- The splitting of a batch into frames loses nothing, and every frame is within the limit.
use wsldrive.Prelude.{
  ℕ, zero, suc, ◌+◌, ◌*◌, ◌/◌, ◌%◌, ◌≤◌, ◌≡◌, refl, sym, ap, ◌∙◌, min, Bool, true, false, List, [],
  ◌∷◌, ◌++◌, map, Bytes, length, length-append, ltb, All, arith, if◌then◌else◌, if_elim,
}
use mathlib.Core.Path.{subst}
use wsldrive.Types.{Attributes, change_kind_code, is_move}
use wsldrive.Protocol.Writer
use wsldrive.Protocol.Header.{max_payload}
use wsldrive.Protocol.Messages.{write_attributes}
use wsldrive.Protocol.Invalidations.{
  InvalidationOp, InvalidationBatch, is_upsert, write_invalidation_op, write_ops,
  write_invalidation,
}
use wsldrive.Server.Reads.Bounds.{length-varint}
use wsldrive.Server.Flush.{op_bytes, chunk_more, chunks, chunk_budget, chunk_frame, broadcast_batch}

pub concat : List (List InvalidationOp) → List InvalidationOp
concat [] = []
concat (x ∷ xs) = x ++ concat xs

chunk_more-append :
    (budget bytes : ℕ) (ops : List InvalidationOp)
    → (chunk_more budget bytes ops).0 ++ (chunk_more budget bytes ops).1 ≡ ops
unfolding chunk_more
chunk_more-append budget bytes [] = refl
chunk_more-append budget bytes (op ∷ ops) =
    if_elim (λ (r : List InvalidationOp × List InvalidationOp). r.0 ++ r.1 ≡ op ∷ ops)
      (ltb budget (bytes + op_bytes op)) _ _ (λ e. refl)
      (λ e. ap (◌∷◌ op) (chunk_more-append budget (bytes + op_bytes op) ops))

-- What is left is no longer than what there was.
chunk_more_shrinks :
    (budget bytes : ℕ) (ops : List InvalidationOp)
    → length (chunk_more budget bytes ops).1 ≤ length ops
chunk_more_shrinks budget bytes ops = omega (
  arith,
  ap length (chunk_more-append budget bytes ops),
  length-append (chunk_more budget bytes ops).0 (chunk_more budget bytes ops).1,
)

-- The chunks are the batch, in its order.
chunks-concat :
    (fuel budget : ℕ) (ops : List InvalidationOp)
    → length ops ≤ fuel
    → concat (chunks fuel budget ops) ≡ ops
unfolding chunks concat
chunks-concat fuel budget [] h = refl
chunks-concat zero budget (op ∷ ops) h = absurd (omega arith)
chunks-concat (suc fuel) budget (op ∷ ops) h = ap (◌∷◌ op) (
    ap (◌++◌ (chunk_more budget (op_bytes op) ops).0) (
      chunks-concat fuel budget (chunk_more budget (op_bytes op) ops).1
        (omega (arith, chunk_more_shrinks budget (op_bytes op) ops)))
    ∙ chunk_more-append budget (op_bytes op) ops)

abbrev sum_bytes : List InvalidationOp → ℕ
sum_bytes [] = 0
sum_bytes (op ∷ ops) = length op.path + 32 + sum_bytes ops

chunk_more_bytes :
    (budget bytes n : ℕ) (ops : List InvalidationOp)
    → bytes ≤ n
    → budget ≤ n
    → bytes + sum_bytes (chunk_more budget bytes ops).0 ≤ n
unfolding chunk_more op_bytes
chunk_more_bytes budget bytes n [] h k = omega arith
chunk_more_bytes budget bytes n (op ∷ ops) h k =
    if_elim (λ (r : List InvalidationOp × List InvalidationOp). bytes + sum_bytes r.0 ≤ n)
      (ltb budget (bytes + (length op.path + 32))) _ _ (λ e. omega arith)
      (λ e.
        omega (arith, chunk_more_bytes budget (bytes + (length op.path + 32)) n ops (within e) k))
  where
    within : ltb budget (bytes + (length op.path + 32)) ≡ false → bytes + (length op.path + 32) ≤ n
    within e = ground arith

length-i64 : (v : _) → length (Writer.i64 v) ≡ 8
unfolding Writer.i64 Writer.u64 Writer.put_le Writer.put_le_from
length-i64 v = refl

length-write_attributes : (a : Attributes) → length (write_attributes a) ≤ 29
unfolding write_attributes Writer.u8
length-write_attributes a = omega (
  arith,
  length-append (Writer.varint a.mode) (Writer.varint a.size ++ Writer.i64 a.mtime_ns),
  length-append (Writer.varint a.size) (Writer.i64 a.mtime_ns),
  length-varint a.mode,
  length-varint a.size,
  length-i64 a.mtime_ns,
)

length-string_le : (s : Bytes) → length (Writer.string s) ≤ length s + 10
unfolding Writer.string
length-string_le s =
    omega (arith, length-append (Writer.varint (length s)) s, length-varint (length s))

optional_attributes :
    (b : Bool) (a : Attributes) → length (if b then write_attributes a else []) ≤ 29
optional_attributes true a = length-write_attributes a
optional_attributes false a = omega arith

optional_cookie : (b : Bool) (c : ℕ) → length (if b then Writer.u32 c else []) ≤ 4
unfolding Writer.u32 Writer.put_le Writer.put_le_from
optional_cookie true c = omega arith
optional_cookie false c = omega arith

length-write_invalidation_op :
    (op : InvalidationOp) → length (write_invalidation_op op) ≤ length op.path + 45
unfolding write_invalidation_op Writer.u8
length-write_invalidation_op op =
    let attr = (if is_upsert op.kind then write_attributes op.attr else []) in
    let cookie = (if is_move op.change then Writer.u32 op.cookie else []) in
    omega (
      arith,
      length-append (Writer.string op.path) (attr ++ (change_kind_code op.change % 256 ∷ cookie)),
      length-append attr (change_kind_code op.change % 256 ∷ cookie),
      length-string_le op.path,
      optional_attributes (is_upsert op.kind) op.attr,
      optional_cookie (is_move op.change) op.cookie,
    )

length-write_ops : (ops : List InvalidationOp) → 32 * length (write_ops ops) ≤ 45 * sum_bytes ops
unfolding write_ops
length-write_ops [] = omega arith
length-write_ops (op ∷ ops) = omega (
  arith,
  length-append (write_invalidation_op op) (write_ops ops),
  length-write_invalidation_op op,
  length-write_ops ops,
)

abbrev pub half_payload : ℕ
half_payload = max_payload / 2

-- A chunk of a batch whose paths fit, in a payload.
abbrev pub FitsFrame : ℕ → List InvalidationOp → Type 0
FitsFrame generation chunk =
    length (write_invalidation (record { generation = generation; ops = chunk })) ≤ max_payload

chunk_fits :
    (generation : ℕ) (chunk : List InvalidationOp)
    → sum_bytes chunk ≤ half_payload
    → FitsFrame generation chunk
unfolding write_invalidation Writer.u64 Writer.put_le Writer.put_le_from
chunk_fits generation chunk h = omega (
  arith,
  length-append (Writer.varint (length chunk)) (write_ops chunk),
  length-varint (length chunk),
  length-write_ops chunk,
)

abbrev pub ShortPath : InvalidationOp → Type 0
ShortPath op = length op.path + 32 ≤ half_payload

All_back : (P : InvalidationOp → Type 0) (xs ys : List InvalidationOp) → All P (xs ++ ys) → All P ys
All_back P [] ys h = h
All_back P (x ∷ xs) ys h = All_back P xs ys h.1

chunks_fit :
    (generation fuel budget : ℕ) (ops : List InvalidationOp)
    → budget ≤ half_payload
    → All ShortPath ops
    → All (FitsFrame generation) (chunks fuel budget ops)
unfolding chunks op_bytes
chunks_fit generation fuel budget [] h k = tt
chunks_fit generation zero budget (op ∷ ops) h k = tt
chunks_fit generation (suc fuel) budget (op ∷ ops) h k =
    let more = chunk_more budget (op_bytes op) ops in
    (
      chunk_fits generation (op ∷ more.0)
          (omega (arith, chunk_more_bytes budget (op_bytes op) half_payload ops k.0 h)),
      chunks_fit generation fuel budget more.1 h (
          All_back ShortPath more.0 more.1
            (subst (All ShortPath) (sym (chunk_more-append budget (op_bytes op) ops)) k.1)),
    )

-- The frames of a batch: its operations in their order, cut into pieces that fit.
pub record IsSplit (batch : InvalidationBatch) (frames : List Bytes) : Type 0 where
  pub pieces : List (List InvalidationOp)
  pub framed : frames ≡ map (chunk_frame batch.generation) pieces
  pub whole : concat pieces ≡ batch.ops
  pub fit : All (FitsFrame batch.generation) pieces

-- Where no path is longer than half a payload less 32 bytes, the frames that a batch is broadcast in hold its
-- operations, all of them and in their order, each under the generation of the batch, and none has a
-- payload above the limit, whatever the configured size of a chunk.
pub broadcast_batch-IsSplit :
    (snapshot_chunk_bytes : ℕ) (batch : InvalidationBatch)
    → All ShortPath batch.ops
    → IsSplit batch (broadcast_batch snapshot_chunk_bytes batch)
unfolding broadcast_batch chunk_budget
broadcast_batch-IsSplit snapshot_chunk_bytes batch short = record {
  pieces = chunks (length batch.ops) (min snapshot_chunk_bytes half_payload) batch.ops;
  framed = refl;
  whole =
      chunks-concat (length batch.ops) (min snapshot_chunk_bytes half_payload) batch.ops
        (omega arith);
  fit =
      chunks_fit batch.generation (length batch.ops) (min snapshot_chunk_bytes half_payload)
        batch.ops (omega arith) short;
}
