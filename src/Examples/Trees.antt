-- ===== src/Examples/Trees.antt =====
-- Runs of the directory tree and its tables.
use wsldrive.Prelude.{
  ◌+◌, ◌*◌, ◌≤◌, length, inr, true, false, ◌^◌, ◌-◌, arith, ◌≡◌, refl, List, [], ◌∷◌, Bytes, none,
  some, bytes_eq,
}
use wsldrive.Prelude.Int.{pos}
use wsldrive.Types.{Attributes, file, directory}
use wsldrive.Paths.{
  components, components_loop, component, after_component, skip_separators, is_skipped,
  is_path_separator, normalize_path, normalize_path_append, push_components, push_component,
  split_parent, rsplit,
}
use wsldrive.Unicode.{casefold, casefold_append, casefold_loop, is_ascii}
use wsldrive.Hash.{mix64}
use wsldrive.FlatMap
use wsldrive.FlatMap.Capacity.{grow_if_needed-load, count_live}
use wsldrive.FlatMap.Filled.{is_filled, count_filled}
use wsldrive.Protocol.Requests.{WriteResponse}
use wsldrive.Client.Cache.{empty_cache}
use wsldrive.Client.Cache.Reach.{empty_cache-IsCache}
use wsldrive.Client.Mirror.{Mirror}
use wsldrive.Client.Requests.{write_mirror, truncate_mirror}
use wsldrive.Client.Requests.Versions.{stale_read, stale_read-none}
use wsldrive.Protocol.Messages.{SnapshotEntry}
use wsldrive.Tree.Snapshot.{load_snapshot}
use wsldrive.Tree.Counts.{Loaded, parents_precede, load_snapshot-Loaded}
use wsldrive.StringPool
use wsldrive.StringPool.{intern, add, find_index, empty_pool}
use wsldrive.Tree.{
  MetadataTree, empty_tree, clear_with, alloc_node, link_child, index_node, node, set_node,
  set_next, set_prev, set_first, set_last, set_count, valid, valid_name, no_bad_byte, key, invalid,
  root, is_dir, is_directory, blank_node, no_attributes, implicit_directory,
}
use wsldrive.Tree.Lookup.{
  lookup, exactly, case_insensitive, lookup_loop, follow, find_child, otherwise, find_exact,
  find_folded, is_dot_dot,
}
use wsldrive.Tree.Mutate.{
  upsert_path, upsert_in, upsert, upsert_found, ensure_directory_path, ensure_loop, ensure_round,
  enter, insert, add_node, intern_name, intern_folded, any_upper,
}

abbrev plain_file : Attributes
plain_file = record { size = 7; mtime_ns = pos 1; mode = 0o644; kind = file }

-- "dir/Name"
abbrev dir_name : Bytes
dir_name = b'd' ∷ b'i' ∷ b'r' ∷ b'/' ∷ b'N' ∷ b'a' ∷ b'm' ∷ b'e' ∷ []

abbrev dir_name_lower : Bytes
dir_name_lower = b'd' ∷ b'i' ∷ b'r' ∷ b'/' ∷ b'n' ∷ b'a' ∷ b'm' ∷ b'e' ∷ []

abbrev one_file : MetadataTree
one_file = (upsert_path empty_tree dir_name plain_file).1

-- A name is found by another case of it, and only where the lookup asks for that.
lookup-one_file :
    (lookup one_file dir_name_lower case_insensitive ≡ some 2)
    × (lookup one_file dir_name_lower exactly ≡ none)
unfolding lookup lookup_loop follow find_child otherwise find_exact find_folded upsert_path
    upsert_in upsert upsert_found ensure_directory_path ensure_loop ensure_round enter insert
    add_node intern_name intern_folded any_upper empty_tree clear_with alloc_node link_child
    index_node node set_node set_next set_prev set_first set_last set_count valid valid_name
    no_bad_byte key invalid root is_dir is_directory blank_node no_attributes implicit_directory
    is_dot_dot components components_loop component after_component skip_separators is_skipped
    is_path_separator normalize_path normalize_path_append push_components push_component
    split_parent rsplit casefold casefold_append casefold_loop is_ascii bytes_eq intern add
    find_index StringPool.find empty_pool FlatMap.find FlatMap.probe FlatMap.contains FlatMap.home
    FlatMap.next FlatMap.slot_at FlatMap.set_slot FlatMap.empty_map FlatMap.empty_slot
    FlatMap.empty_key FlatMap.tombstone_key FlatMap.blank FlatMap.reinsert FlatMap.rehash
    FlatMap.grow_if_needed FlatMap.fill_at FlatMap.note_tombstone FlatMap.emplace_loop
    FlatMap.placed FlatMap.emplace FlatMap.insert_or_assign FlatMap.insert_if_absent mix64
lookup-one_file = (refl, refl)

abbrev sub_dir : Attributes
sub_dir = record { size = 0; mtime_ns = pos 1; mode = 0o755; kind = directory }

abbrev entries : List SnapshotEntry
entries =
    record { parent = 0; name = b'd' ∷ []; attr = sub_dir }
    ∷ record { parent = 1; name = b'a' ∷ 0x5C ∷ b'b' ∷ []; attr = plain_file }
    ∷ record { parent = 1; name = b'f' ∷ []; attr = plain_file }
    ∷ []

load_snapshot-Loaded_example :
    Loaded (parents_precede 0 entries) (1 + length entries) (load_snapshot one_file entries)
load_snapshot-Loaded_example = load_snapshot-Loaded one_file entries

-- Three keys and a tombstone in four slots.
abbrev full_map : FlatMap.U64Map
full_map = record {
  slots =
      record { key = 5; value = 1 }
      ∷ record { key = 2 ^ 64 - 2; value = 0 }
      ∷ record { key = 6; value = 2 }
      ∷ record { key = 7; value = 3 }
      ∷ [];
  size = 3;
  used = 4;
}

full_map_live : 3 ≡ count_live full_map.slots
unfolding count_live FlatMap.is_live FlatMap.empty_key FlatMap.tombstone_key
full_map_live = refl

full_map_filled : count_filled full_map.slots ≤ 4
unfolding count_filled is_filled FlatMap.empty_key
full_map_filled = omega arith

grow_if_needed-load_example :
    (count_filled (FlatMap.grow_if_needed full_map).slots ≤ (FlatMap.grow_if_needed full_map).used)
    × ((count_filled (FlatMap.grow_if_needed full_map).slots + 1) * 4
        ≤ length (FlatMap.grow_if_needed full_map).slots * 3)
grow_if_needed-load_example =
    grow_if_needed-load full_map full_map_live full_map_filled (inr (omega arith))

-- A mirror that has the file, and a clock that stands still.
abbrev mirror : Mirror
mirror = record {
  tree = one_file;
  mode = exactly;
  mutations = [];
  in_flight = false;
  replay = [];
  is_overflow = false;
  cache = empty_cache;
  seen_dirs = [];
  is_requested = false;
  generation = 0;
  batches = 0;
  ops = 0;
}

abbrev answer : WriteResponse
answer = record { written = 2; generation = 8 }

one_file_found : lookup one_file dir_name exactly ≡ some 2
unfolding lookup lookup_loop follow find_child otherwise find_exact find_folded upsert_path
    upsert_in upsert upsert_found ensure_directory_path ensure_loop ensure_round enter insert
    add_node intern_name intern_folded any_upper empty_tree clear_with alloc_node link_child
    index_node node set_node set_next set_prev set_first set_last set_count valid valid_name
    no_bad_byte key invalid root is_dir is_directory blank_node no_attributes implicit_directory
    is_dot_dot components components_loop component after_component skip_separators is_skipped
    is_path_separator normalize_path normalize_path_append push_components push_component
    split_parent rsplit casefold casefold_append casefold_loop is_ascii bytes_eq intern add
    find_index StringPool.find empty_pool FlatMap.find FlatMap.probe FlatMap.contains FlatMap.home
    FlatMap.next FlatMap.slot_at FlatMap.set_slot FlatMap.empty_map FlatMap.empty_slot
    FlatMap.empty_key FlatMap.tombstone_key FlatMap.blank FlatMap.reinsert FlatMap.rehash
    FlatMap.grow_if_needed FlatMap.fill_at FlatMap.note_tombstone FlatMap.emplace_loop
    FlatMap.placed FlatMap.emplace FlatMap.insert_or_assign FlatMap.insert_if_absent mix64
one_file_found = refl

one_file-valid : valid one_file 2 ≡ true
unfolding lookup lookup_loop follow find_child otherwise find_exact find_folded upsert_path
    upsert_in upsert upsert_found ensure_directory_path ensure_loop ensure_round enter insert
    add_node intern_name intern_folded any_upper empty_tree clear_with alloc_node link_child
    index_node node set_node set_next set_prev set_first set_last set_count valid valid_name
    no_bad_byte key invalid root is_dir is_directory blank_node no_attributes implicit_directory
    is_dot_dot components components_loop component after_component skip_separators is_skipped
    is_path_separator normalize_path normalize_path_append push_components push_component
    split_parent rsplit casefold casefold_append casefold_loop is_ascii bytes_eq intern add
    find_index StringPool.find empty_pool FlatMap.find FlatMap.probe FlatMap.contains FlatMap.home
    FlatMap.next FlatMap.slot_at FlatMap.set_slot FlatMap.empty_map FlatMap.empty_slot
    FlatMap.empty_key FlatMap.tombstone_key FlatMap.blank FlatMap.reinsert FlatMap.rehash
    FlatMap.grow_if_needed FlatMap.fill_at FlatMap.note_tombstone FlatMap.emplace_loop
    FlatMap.placed FlatMap.emplace FlatMap.insert_or_assign FlatMap.insert_if_absent mix64
one_file-valid = refl

stale_read-none_example :
    (stale_read (pos 0) dir_name mirror 2 (1 ∷ []) (write_mirror (pos 0) dir_name 5 answer mirror)
      ≡ none)
    × (stale_read (pos 0) dir_name mirror 2 (1 ∷ []) (truncate_mirror (pos 0) dir_name 4 8 mirror)
        ≡ none)
stale_read-none_example =
    stale_read-none (pos 0) dir_name mirror 2 (1 ∷ []) 5 4 answer one_file_found one_file-valid
      empty_cache-IsCache
