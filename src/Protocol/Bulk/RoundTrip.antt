-- ===== src/Protocol/Bulk/RoundTrip.antt =====
-- The bulk read request and its reply are read back as they were written.
use mathlib.Core.Path.{subst}
use wsldrive.Prelude.{
  ◌^◌, ◌<◌, ◌≤◌, ◌≡◌, refl, sym, ◌∙◌, Bool, true, false, List, [], ◌∷◌, ◌++◌, Bytes, length,
  length-append, append_assoc, All, arith, leb, if◌then◌else◌,
}
use wsldrive.Types.{ok, err, corrupt, invalid_argument}
use wsldrive.Protocol.Writer
use wsldrive.Protocol.Reader
use wsldrive.Protocol.Reader.{pure, ◌>>=◌, ◌>>◌, check}
use wsldrive.Protocol.Reader.Law.{Reads, Reads-pure, Reads-bind, Reads-map, bind_ok, enough_ok}
use wsldrive.Protocol.Reader.Fixed.{u8-Reads, length-u8}
use wsldrive.Protocol.Reader.Varint.{varint-Reads, string-Reads, blob-Reads, length-string}
use wsldrive.Protocol.Bulk.{
  max_read_many_paths, write_paths, write_read_many_request, read_paths, read_read_many_request,
  ReadManyItem, write_item, write_items, write_read_many_response, read_contents, read_item,
  read_items, read_read_many_response,
}

abbrev pub Sized : Bytes → Type 0
Sized s = length s < 2 ^ 64

read_paths-Reads :
    (ps : List Bytes) → All Sized ps → Reads (read_paths (length ps)) (write_paths ps) ps
unfolding read_paths write_paths
read_paths-Reads [] r = Reads-pure []
read_paths-Reads (p ∷ ps) r =
    Reads-bind _ (string-Reads p r.0) (Reads-map _ (read_paths-Reads ps r.1))

length-write_paths : (ps : List Bytes) → length ps ≤ length (write_paths ps)
unfolding write_paths
length-write_paths [] = omega arith
length-write_paths (p ∷ ps) =
    simp length-append (omega (arith, length-string p, length-write_paths ps))

check_lem :
    (b : Bool) (k : Reader.Reader (List Bytes)) (s : Bytes)
    → (check b invalid_argument >> k) s ≡ (if b then k s else err invalid_argument)
unfolding check ◌>>◌ ◌>>=◌
check_lem true k s = refl
check_lem false k s = refl

-- A bulk read request of at most 4096 paths is read back as it was written, and a longer one is
-- refused with `InvalidArgument`.
pub read_read_many_request-write_read_many_request :
    (ps : List Bytes) (rest : Bytes)
    → length ps < 2 ^ 64
    → All Sized ps
    → read_read_many_request (write_read_many_request ps ++ rest)
      ≡ (if leb (length ps) max_read_many_paths then ok (ps, rest) else err invalid_argument)
unfolding read_read_many_request write_read_many_request
read_read_many_request-write_read_many_request ps rest hn r =
    rw (append_assoc (Writer.varint (length ps)) (write_paths ps) rest) (
      bind_ok _ _ _ ((varint-Reads (length ps) hn).run _)
      ∙ enough_ok (length ps) corrupt _ (write_paths ps ++ rest) fits
      ∙ check_lem (leb (length ps) max_read_many_paths) (read_paths (length ps))
          (write_paths ps ++ rest)
      ∙ rw ((read_paths-Reads ps r).run rest) refl)
  where
    fits : length ps ≤ length (write_paths ps ++ rest)
    fits = omega (arith, length-write_paths ps, length-append (write_paths ps) rest)

-- An item that is absent carries no contents.
abbrev pub ItemInRange : ReadManyItem → Type 0
ItemInRange it = Sized it.contents × (it.present ≡ false → it.contents ≡ [])

read_item-Reads : (it : ReadManyItem) → ItemInRange it → Reads read_item (write_item it) it
unfolding read_item write_item read_contents
read_item-Reads it r = by_flag it.present it.contents r.0 r.1
  where
    by_flag :
        (b : Bool) (c : Bytes)
        → Sized c
        → (b ≡ false → c ≡ [])
        → Reads read_item
            (write_item (record { present = b; contents = c }))
            (record { present = b; contents = c })
    by_flag true c size empty =
        Reads-bind _ (u8-Reads 1 (omega arith)) (Reads-map _ (blob-Reads c size))
    by_flag false c size empty =
        subst
          (λ d.
            Reads read_item (write_item (record { present = false; contents = d }))
              (record { present = false; contents = d }))
          (sym (empty refl)) (Reads-bind _ (u8-Reads 0 (omega arith)) (Reads-map _ (Reads-pure [])))

read_items-Reads :
    (its : List ReadManyItem)
    → All ItemInRange its
    → Reads (read_items (length its)) (write_items its) its
unfolding read_items write_items
read_items-Reads [] r = Reads-pure []
read_items-Reads (it ∷ its) r =
    Reads-bind _ (read_item-Reads it r.0) (Reads-map _ (read_items-Reads its r.1))

length-write_items : (its : List ReadManyItem) → length its ≤ length (write_items its)
unfolding write_items write_item
length-write_items [] = omega arith
length-write_items (it ∷ its) =
    simp length-append
      (omega (arith, length-u8 (if it.present then 1 else 0), length-write_items its))

-- A bulk read reply is read back item by item, the missing files as missing.
pub read_read_many_response-write_read_many_response :
    (its : List ReadManyItem) (rest : Bytes)
    → length its < 2 ^ 64
    → All ItemInRange its
    → read_read_many_response (write_read_many_response its ++ rest) ≡ ok (its, rest)
unfolding read_read_many_response write_read_many_response
read_read_many_response-write_read_many_response its rest hn r =
    rw (append_assoc (Writer.varint (length its)) (write_items its) rest) (
      bind_ok _ _ _ ((varint-Reads (length its) hn).run _)
      ∙ enough_ok (length its) corrupt _ (write_items its ++ rest) fits
      ∙ (read_items-Reads its r).run rest)
  where
    fits : length its ≤ length (write_items its ++ rest)
    fits = omega (arith, length-write_items its, length-append (write_items its) rest)
