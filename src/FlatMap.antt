-- ===== src/FlatMap.antt =====
-- src/core/flat_map.hpp: `U64Map`, open addressing with linear probing and tombstones.
pub mod Filled
pub mod Capacity
use wsldrive.Prelude.{
  ℕ, zero, suc, ◌+◌, ◌-◌, ◌*◌, ◌^◌, bit_and, Bool, true, false, not, ◌||◌, List, [], ◌∷◌, length,
  null, get_elem?, ltb, ◌==◌, Option, none, some, if◌then◌else◌,
}
use wsldrive.Hash.{mix64}

-- `kEmpty` and `kTombstone`
unfoldable pub empty_key : ℕ
empty_key = 2 ^ 64 - 1

unfoldable pub tombstone_key : ℕ
tombstone_key = 2 ^ 64 - 2

pub record Slot : Type 0 where
  pub key : ℕ
  pub value : ℕ

unfoldable pub empty_slot : Slot
empty_slot = record { key = empty_key; value = 0 }

pub record U64Map : Type 0 where
  pub slots : List Slot
  pub size : ℕ
  pub used : ℕ

unfoldable pub empty_map : U64Map
empty_map = record { slots = []; size = 0; used = 0 }

-- `slots_[i]`; every index is masked, so none is out of range.
unfoldable pub slot_at : List Slot → ℕ → Slot
slot_at slots i = elim (get_elem? slots i) [ none ↦ empty_slot | some s ↦ s ]

unfoldable pub set_slot : List Slot → ℕ → Slot → List Slot
set_slot [] i s = []
set_slot (t ∷ slots) zero s = s ∷ slots
set_slot (t ∷ slots) (suc i) s = t ∷ set_slot slots i s

-- `mix64(key) & mask` and `(i + 1) & mask`
unfoldable pub home : List Slot → ℕ → ℕ
home slots key = bit_and (mix64 key) (length slots - 1)

unfoldable pub next : List Slot → ℕ → ℕ
next slots i = bit_and (i + 1) (length slots - 1)

-- The probing of `find` and `erase`: the index of the key's slot. As long as one slot is empty, the
-- number of slots is fuel enough.
unfoldable pub probe : ℕ → List Slot → ℕ → ℕ → Option ℕ
probe zero slots key i = none
probe (suc fuel) slots key i =
    let rest = probe fuel slots key (next slots i) in
    if (slot_at slots i).key == key
    then some i
    else if (slot_at slots i).key == empty_key
    then none
    else rest

unfoldable pub find : U64Map → ℕ → Option ℕ
find m key =
    if null m.slots then none else elim (probe (length m.slots) m.slots key (home m.slots key)) [
      | none ↦ none
      | some i ↦ some (slot_at m.slots i).value
    ]

unfoldable pub contains : U64Map → ℕ → Bool
contains m key = elim (find m key) [ none ↦ false | some v ↦ true ]

unfoldable pub erase : U64Map → ℕ → Bool × U64Map
erase m key =
    if null m.slots
    then (false, m)
    else elim (probe (length m.slots) m.slots key (home m.slots key)) [
      | none ↦ (false, m)
      | some i ↦ (
        true,
        record m {
          slots =
              set_slot m.slots i
                (record { key = tombstone_key; value = (slot_at m.slots i).value });
          size = m.size - 1;
        },
      )
    ]

unfoldable pub blank : ℕ → List Slot
blank zero = []
blank (suc n) = empty_slot ∷ blank n

unfoldable pub clear : U64Map → U64Map
clear m = record { slots = blank (length m.slots); size = 0; used = 0 }

unfoldable pub is_live : Slot → Bool
is_live s = not ((s.key == empty_key) || (s.key == tombstone_key))

-- `while (slots_[i].key != kEmpty) i = (i + 1) & mask;`
unfoldable pub first_empty : ℕ → List Slot → ℕ → ℕ
first_empty zero slots i = i
first_empty (suc fuel) slots i =
    let rest = first_empty fuel slots (next slots i) in
    if (slot_at slots i).key == empty_key then i else rest

unfoldable pub reinsert : List Slot → U64Map → U64Map
reinsert [] m = m
reinsert (s ∷ old) m =
    if not (is_live s)
    then reinsert old m
    else reinsert old (record {
      slots = set_slot m.slots (first_empty (length m.slots) m.slots (home m.slots s.key)) s;
      size = m.size + 1;
      used = m.used + 1;
    })

unfoldable pub rehash : U64Map → ℕ → U64Map
rehash m new_cap = reinsert m.slots (record { slots = blank new_cap; size = 0; used = 0 })

unfoldable pub grow_if_needed : U64Map → U64Map
grow_if_needed m =
    if null m.slots
    then rehash m 16
    else if ltb (length m.slots * 3) ((m.used + 1) * 4)
    then rehash m
        (if ltb (length m.slots) ((m.size + 1) * 2) then length m.slots * 2 else length m.slots)
    else m

-- `while (cap * 3 < n * 4) cap <<= 1;`: a round doubles the capacity, which `n` rounds bring past it.
unfoldable pub grown_cap : ℕ → ℕ → ℕ → ℕ
grown_cap zero n cap = cap
grown_cap (suc fuel) n cap =
    let rest = grown_cap fuel n (cap * 2) in if ltb (cap * 3) (n * 4) then rest else cap

unfoldable pub reserve : U64Map → ℕ → U64Map
reserve m n = let cap = grown_cap n n 16 in if ltb (length m.slots) cap then rehash m cap else m

-- Where the probing of `emplace` ends: at the key's slot, or at the slot to fill, which is the
-- first tombstone on the way, with true, or the empty slot.
pub data Place : Type 0 where
  present : ℕ → Place
  fill : ℕ → Bool → Place

unfoldable pub fill_at : Option ℕ → ℕ → Place
fill_at none i = fill i false
fill_at (some t) i = fill t true

unfoldable pub note_tombstone : Option ℕ → ℕ → Option ℕ
note_tombstone none i = some i
note_tombstone (some t) i = some t

unfoldable pub emplace_loop : ℕ → List Slot → ℕ → ℕ → Option ℕ → Place
emplace_loop zero slots key i tomb = fill_at tomb i
emplace_loop (suc fuel) slots key i tomb =
    let s = slot_at slots i in
    let rest =
      emplace_loop fuel slots key (next slots i)
        (if s.key == tombstone_key then note_tombstone tomb i else tomb) in
    if s.key == key
    then present i
    else if s.key == tombstone_key
    then rest
    else if s.key == empty_key
    then fill_at tomb i
    else rest

unfoldable pub placed : U64Map → ℕ → ℕ → Bool → Place → Bool × U64Map
placed m key value assign (present i) = (
  false,
  if assign
      then record m { slots = set_slot m.slots i (record { key = key; value = value }) }
      else m,
)
placed m key value assign (fill i was_tombstone) = (
  true,
  record {
    slots = set_slot m.slots i (record { key = key; value = value });
    size = m.size + 1;
    used = if was_tombstone then m.used else m.used + 1;
  },
)

-- Whether the key is new, and the map after it.
unfoldable pub emplace : U64Map → ℕ → ℕ → Bool → Bool × U64Map
emplace m key value assign =
    let grown = grow_if_needed m in
    placed grown key value assign
      (emplace_loop (length grown.slots) grown.slots key (home grown.slots key) none)

unfoldable pub insert_or_assign : U64Map → ℕ → ℕ → Bool × U64Map
insert_or_assign m key value = emplace m key value true

unfoldable pub insert_if_absent : U64Map → ℕ → ℕ → Bool × U64Map
insert_if_absent m key value = emplace m key value false
