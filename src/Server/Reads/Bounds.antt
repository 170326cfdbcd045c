-- ===== src/Server/Reads/Bounds.antt =====
-- The replies of the read requests fit into a frame.
use wsldrive.Prelude.{
  ℕ, zero, suc, ◌+◌, ◌*◌, ◌/◌, ◌%◌, ◌^◌, ◌≤◌, ◌≡◌, refl, ap, false, ◌||◌, List, [], ◌∷◌, ◌++◌,
  Bytes, length, length-append, ltb, leb→le, ◌==◌, Option, none, some, arith, if◌then◌else◌,
  if_elim,
}
use wsldrive.Types.{Result, ok, err}
use wsldrive.Disk.{Disk, File, Opened, opened, unopened, reading}
use wsldrive.Paths.{normalize_path}
use wsldrive.Protocol.Header.{max_payload}
use wsldrive.Protocol.Writer
use wsldrive.Protocol.Reader
use wsldrive.Protocol.Reader.{remaining}
use wsldrive.Protocol.Reader.Returns.{
  Returns, pure-Returns, any-Returns, Returns_ok, bind-Returns, check-Returns, weaken-Returns,
}
use wsldrive.Protocol.Bulk.{
  ReadManyItem, max_read_many_paths, read_paths, read_read_many_request, write_item, write_items,
  write_read_many_response,
}
use wsldrive.Channel.{Socket}
use wsldrive.Server.Resolve.{resolve}
use wsldrive.Server.Reads.{
  max_bulk_file, bulk_cap, get_and_close, bulk_opened, bulk_sized, bulk_resolved, bulk_items,
}

length-varint_loop : (fuel v : ℕ) → length (Writer.varint_loop fuel v) ≤ fuel + 1
unfolding Writer.varint_loop
length-varint_loop zero v = omega arith
length-varint_loop (suc fuel) v =
    if_elim (λ (b : Bytes). length b ≤ suc fuel + 1) (ltb v 0x80) _ _ (λ e. omega arith)
      (λ e. omega (arith, length-varint_loop fuel (v / 2 ^ 7)))

pub length-varint : (v : ℕ) → length (Writer.varint v) ≤ 10
unfolding Writer.varint
length-varint v = length-varint_loop 9 v

-- What the items hold, and what they are encoded in.
abbrev pub held : List ReadManyItem → ℕ
held [] = 0
held (it ∷ its) = length it.contents + held its

length-write_item : (it : ReadManyItem) → length (write_item it) ≤ length it.contents + 11
unfolding write_item Writer.u8 Writer.blob Writer.raw
length-write_item it =
    if_elim
      (λ (b : Bytes).
        length (((if it.present then 1 else 0) % 256 ∷ []) ++ b) ≤ length it.contents + 11)
      it.present _ _
      (λ e. omega (
        arith,
        length-append (Writer.varint (length it.contents)) it.contents,
        length-varint (length it.contents),
      ))
      (λ e. omega arith)

length-write_items :
    (its : List ReadManyItem) → length (write_items its) ≤ held its + 11 * length its
unfolding write_items
length-write_items [] = omega arith
length-write_items (it ∷ its) = omega (
  arith,
  length-append (write_item it) (write_items its),
  length-write_item it,
  length-write_items its,
)

read_paths-Returns : (n : ℕ) → Returns (λ (ps : List Bytes). length ps ≡ n) (read_paths n)
unfolding read_paths
read_paths-Returns zero = pure-Returns _ [] refl
read_paths-Returns (suc n) = bind-Returns _ _ Reader.string _ (any-Returns Reader.string) (λ p _.
    bind-Returns _ _ (read_paths n) _ (read_paths-Returns n)
      (λ ps e. pure-Returns _ (p ∷ ps) (omega (arith, e))))

-- A bulk request names 4096 paths at most.
read_read_many_request-Returns :
    Returns (λ (ps : List Bytes). length ps ≤ max_read_many_paths) read_read_many_request
unfolding read_read_many_request
read_read_many_request-Returns =
    bind-Returns _ _ Reader.varint _ (any-Returns Reader.varint) (λ count _.
      bind-Returns _ _ remaining _ (any-Returns remaining) (λ left _. check-Returns _ _ _ _ (λ _.
        check-Returns _ _ _ _ (λ few.
          weaken-Returns _ _ (read_paths count)
            (λ ps e. omega (arith, e, leb→le count max_read_many_paths few))
            (read_paths-Returns count)))))

-- `fread` returns no more than it was asked for.
pub record IsReadable {W : Type 0} (disk : Disk W) : Type 0 where
  pub gets :
      (p : Bytes) (w after : W) (f : File W)
      → disk.open_file p reading w ≡ (opened f, after)
      → (n : ℕ) (v : W) → length (f.get n v).0 ≤ n

module _ {W S : Type 0} (disk : Disk W) (socket : Socket S) (root : Bytes)
    (readable : IsReadable disk) where
  abbrev Fits : ℕ → ReadManyItem × W → Type 0
  Fits total r = total + length r.0.contents ≤ bulk_cap

  bulk_opened-Fits :
      (total size : ℕ) (full : Bytes) (w : W)
      → total + size ≤ bulk_cap
      → Fits total (bulk_opened disk socket root size (disk.open_file full reading w))
  unfolding bulk_opened get_and_close
  bulk_opened-Fits total size full w h = go (disk.open_file full reading w) refl
    where
      go :
          (o : Opened W × W)
          → disk.open_file full reading w ≡ o
          → Fits total (bulk_opened disk socket root size o)
      go (unopened e, after) eq = omega arith
      go (opened f, after) eq =
          if_elim (λ (r : Bytes × W). total + length r.0 ≤ bulk_cap) (size == 0) _ _
            (λ e. omega arith) (λ e. omega (arith, readable.gets full w after f eq size after))

  bulk_sized-Fits :
      (total : ℕ) (full : Bytes) (w : W) (o : Option ℕ)
      → total ≤ bulk_cap
      → Fits total (bulk_sized disk socket root total full w o)
  unfolding bulk_sized
  bulk_sized-Fits total full w none h = omega arith
  bulk_sized-Fits total full w (some size) h =
      if_elim (λ (r : ReadManyItem × W). Fits total r)
        (ltb max_bulk_file size || ltb bulk_cap (total + size)) _ _ (λ e. omega arith)
        (λ e. bulk_opened-Fits total size full w (fits e))
    where
      fits :
          (ltb max_bulk_file size || ltb bulk_cap (total + size)) ≡ false → total + size ≤ bulk_cap
      fits e = ground arith

  bulk_resolved-Fits :
      (total : ℕ) (w : W) (r : Result Bytes)
      → total ≤ bulk_cap
      → Fits total (bulk_resolved disk socket root total w r)
  unfolding bulk_resolved
  bulk_resolved-Fits total w (err e) h = omega arith
  bulk_resolved-Fits total w (ok full) h = bulk_sized-Fits total full w (disk.size_of full w) h

  bulk_items-held :
      (total : ℕ) (paths : List Bytes) (w : W)
      → total ≤ bulk_cap
      → (total + held (bulk_items disk socket root total paths w).0 ≤ bulk_cap)
        × (length (bulk_items disk socket root total paths w).0 ≡ length paths)
  unfolding bulk_items
  bulk_items-held total [] w h = (omega arith, refl)
  bulk_items-held total (path ∷ paths) w h =
      let r = bulk_resolved disk socket root total w (resolve root (normalize_path path)) in
      let fit = bulk_resolved-Fits total w (resolve root (normalize_path path)) h in
      let (few, same) = bulk_items-held (total + length r.0.contents) paths r.1 fit in
      (omega (arith, few), ap suc same)

  -- The items that a bulk request is answered with are as many as its paths, and their encoding is
  -- within the limit of a payload: the headroom below it is enough for the framing of the 4096
  -- paths that a request can have.
  pub send_read_many_fits :
      (payload rest : Bytes) (paths : List Bytes) (w : W)
      → read_read_many_request payload ≡ ok (paths, rest)
      → (length (write_read_many_response (bulk_items disk socket root 0 paths w).0) ≤ max_payload)
        × (length (bulk_items disk socket root 0 paths w).0 ≡ length paths)
  unfolding write_read_many_response
  send_read_many_fits payload rest paths w e =
      let items = (bulk_items disk socket root 0 paths w).0 in
      let few =
        Returns_ok _ read_read_many_request payload rest paths read_read_many_request-Returns e in
      let (sum, same) = bulk_items-held 0 paths w (omega arith) in
      (
        omega (
          arith,
          few,
          sum,
          same,
          length-append (Writer.varint (length items)) (write_items items),
          length-varint (length items),
          length-write_items items,
        ),
        same,
      )
