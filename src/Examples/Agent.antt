-- ===== src/Examples/Agent.antt =====
-- Runs of the server: a disk that is a list of paths, and a socket that is the bytes to come.
use wsldrive.Prelude.{
  ℕ, ◌+◌, ◌≤◌, ◌≡◌, refl, sym, ap, ◌∙◌, Bool, true, false, ◌||◌, List, [], ◌∷◌, ◌++◌, Bytes,
  bytes_eq, bytes_eq_sound, length, take, drop, none, some, Bool-cases, inl, inr, ||_left, ||_right,
  ||_rest, if_elim, ◌⊎◌, if◌then◌else◌, arith,
}
use mathlib.Core.Path.{subst}
use wsldrive.Prelude.Int.{pos}
use wsldrive.Types.{ok, err, invalid_path}
use wsldrive.Scanner.{join_relative}
use wsldrive.Disk.{
  Disk, Entry, regular_type, directory_type, File, Opened, opened, unopened, other_error, reading,
}
use wsldrive.Paths.{components, is_skipped, starts_with_slash, normalize_path}
use wsldrive.Paths.Components.{real}
use wsldrive.Protocol.MsgTypes
use wsldrive.Protocol.Requests.{write_path_request}
use wsldrive.Protocol.Bulk.{
  read_read_many_request, write_read_many_request, write_read_many_response,
}
use wsldrive.Protocol.Bulk.RoundTrip.{read_read_many_request-write_read_many_request}
use wsldrive.Protocol.Header.{max_payload}
use wsldrive.Channel.{Socket, Frame}
use wsldrive.Tree.Lookup.{is_dot_dot}
use wsldrive.Server.Resolve.{
  resolve, contained_pieces, normal_components, normal_steps, normal_step, slash_pieces,
  extend_first, forwards,
}
use wsldrive.Server.Resolve.Contained.{IsBelow, resolve_lem, resolve-IsBelow}
use wsldrive.Server.Resolve.Here.{IsHere, resolve_here}
use wsldrive.Server.Retry.{IsRetried, retry_loop, with_retry, with_retry-IsRetried}
use wsldrive.Server.Files.{Served, handle_mutation}
use wsldrive.Server.Files.Keeps.{Below, IsOutside}
use wsldrive.Server.Files.Confined.{handle_mutation-IsOutside}
use wsldrive.Server.Reads.{bulk_items}
use wsldrive.Server.Reads.Bounds.{IsReadable, send_read_many_fits}

abbrev pub World : Type 0
World = List Bytes

abbrev pub has : World → Bytes → Bool
has [] p = false
has (q ∷ w) p = bytes_eq q p || has w p

abbrev pub without : World → Bytes → World
without [] p = []
without (q ∷ w) p = let rest = without w p in if bytes_eq q p then rest else q ∷ rest

-- Every file is empty.
abbrev pub empty_file : File World
empty_file = record {
  seek = λ n w. (true, w);
  put = λ s w. (length s, w);
  get = λ n w. ([], w);
  close = λ w. w;
}

abbrev pub toy : Disk World
toy = record {
  entry = λ p w. some (record {
    status = some (regular_type, 0);
    entry_size = some 0;
    link_target = none;
    last_write = some (pos 0);
  });
  listing = λ p w. none;
  device = λ p w. none;
  directory_at = λ p w. false;
  size_of = λ p w. if has w p then some 0 else none;
  link_at = λ p w. (some other_error, []);
  open_file = λ p mode w. (opened empty_file, p ∷ w);
  resize_file = λ p n w. (none, w);
  create_directory = λ p w. ((true, none), p ∷ w);
  remove_file = λ p w. ((has w p, none), without w p);
  rename_file = λ p q w. (none, q ∷ without w p);
  transient = λ e p w. false;
  open_transient = λ p w. false;
}

abbrev pub inbox : Socket Bytes
inbox = record {
  send_all = λ bs s. (ok tt, s);
  recv_exact = λ deadline n s. (ok (take n s), drop n s);
  wait_readable = λ wait s. (ok true, s);
  now = λ s. 0;
}

-- "/srv", "/key" and "a"
abbrev pub srv : Bytes
srv = b'/' ∷ b's' ∷ b'r' ∷ b'v' ∷ []

abbrev key : Bytes
key = b'/' ∷ b'k' ∷ b'e' ∷ b'y' ∷ []

abbrev pub name_a : Bytes
name_a = b'a' ∷ []

-- "../key" and "/srv/a"
abbrev up_key : Bytes
up_key = b'.' ∷ b'.' ∷ b'/' ∷ b'k' ∷ b'e' ∷ b'y' ∷ []

abbrev pub srv_a : Bytes
srv_a = b'/' ∷ b's' ∷ b'r' ∷ b'v' ∷ b'/' ∷ b'a' ∷ []

-- The first byte of the second element.
abbrev second_byte : List Bytes → ℕ
second_byte (a ∷ (c ∷ b) ∷ ws) = c
second_byte ws = 0

key_elements : second_byte (normal_components key) ≡ b'k'
unfolding normal_components normal_steps normal_step is_skipped slash_pieces extend_first
    starts_with_slash forwards is_dot_dot bytes_eq
key_elements = refl

srv_elements : (ws : List Bytes) → second_byte (normal_components srv ++ ws) ≡ b's'
unfolding normal_components normal_steps normal_step is_skipped slash_pieces extend_first
    starts_with_slash forwards is_dot_dot bytes_eq
srv_elements ws = refl

key_outside :
    (p : Bytes) (ws : List Bytes) → key ≡ p → normal_components p ≡ normal_components srv ++ ws → ⊥
key_outside p ws e f =
    let k = sym key_elements ∙ ap second_byte (ap normal_components e ∙ f) ∙ srv_elements ws in
    omega (arith, k)

-- A path below the root is not "/key".
not_key : (p : Bytes) → Below srv p → bytes_eq p key ≡ false
not_key p (ws, b) = elim (Bool-cases (bytes_eq p key)) [
  | inl e ↦ absurd (key_outside p ws (sym (bytes_eq_sound p key e)) b.placed)
  | inr e ↦ e
]

has-without :
    (w : World) (p : Bytes)
    → bytes_eq p key ≡ false
    → has w key ≡ true
    → has (without w p) key ≡ true
has-without [] p n h = absurd (cc)
has-without (q ∷ w) p n h =
    if_elim (λ (v : World). has v key ≡ true) (bytes_eq q p) _ _
      (λ e. has-without w p n (
        ||_rest (bytes_eq q key) (has w key)
          (subst (λ x. bytes_eq x key ≡ false) (sym (bytes_eq_sound q p e)) n) h))
      (λ e. kept (has-without w p n) (Bool-cases (bytes_eq q key)))
  where
    kept :
        (has w key ≡ true → has (without w p) key ≡ true)
        → (bytes_eq q key ≡ true) ⊎ (bytes_eq q key ≡ false)
        → has (q ∷ without w p) key ≡ true
    kept rec (inl k) = ||_left (bytes_eq q key) (has (without w p) key) k
    kept rec (inr k) =
        ||_right (bytes_eq q key) (has (without w p) key)
          (rec (||_rest (bytes_eq q key) (has w key) k h))

toy-IsOutside : IsOutside toy srv (λ w. has w key ≡ true)
toy-IsOutside = record {
  open_keeps = λ p mode w b h. (
    record { seek_keeps = λ n w k. k; put_keeps = λ s w k. k; close_keeps = λ w k. k },
    rw (not_key p b) h,
  );
  resize_keeps = λ p n w b h. h;
  create_keeps = λ p w b h. rw (not_key p b) h;
  remove_keeps = λ p w b h. has-without w p (not_key p b) h;
  rename_keeps = λ p q w b c h. rw (not_key q c) (has-without w p (not_key p b) h);
}

srv_absolute : starts_with_slash srv ≡ true
unfolding starts_with_slash
srv_absolute = refl

resolve_lem_example : resolve srv up_key ≡ (
    if contained_pieces (real (components up_key))
    then ok (join_relative srv (normalize_path up_key))
    else err invalid_path)
resolve_lem_example = resolve_lem srv up_key srv_absolute

srv_a_resolved : resolve srv name_a ≡ ok srv_a
unfolding resolve wsldrive.Server.Resolve.is_contained_relative normalize_path
    wsldrive.Paths.normalize_path_append wsldrive.Paths.push_components components
    wsldrive.Paths.components_loop wsldrive.Paths.after_component wsldrive.Paths.skip_separators
    wsldrive.Paths.is_path_separator wsldrive.Paths.push_component is_skipped
    wsldrive.Paths.component bytes_eq contained_pieces slash_pieces extend_first is_dot_dot
    wsldrive.Disk.ends_with_slash wsldrive.Disk.fs_append starts_with_slash join_relative forwards
    wsldrive.Server.Resolve.has_colon wsldrive.Server.Resolve.is_prefix normal_components
    normal_step normal_steps wsldrive.Server.Resolve.or_dot wsldrive.Server.Resolve.path_is_under
    wsldrive.Server.Resolve.step_back
srv_a_resolved = refl

resolve-IsBelow_example : IsBelow srv (real (components name_a)) srv_a
resolve-IsBelow_example = resolve-IsBelow srv name_a srv_a srv_absolute srv_a_resolved

-- "."
abbrev here : Bytes
here = b'.' ∷ []

here-IsHere : IsHere here
unfolding starts_with_slash normal_steps normal_step slash_pieces extend_first is_skipped bytes_eq
here-IsHere = record { relative = refl; given = refl; nowhere = refl }

name_a-components : real (components name_a) ≡ name_a ∷ []
unfolding real components wsldrive.Paths.components_loop is_skipped wsldrive.Paths.component
    wsldrive.Paths.skip_separators wsldrive.Paths.is_path_separator bytes_eq
    wsldrive.Paths.after_component
name_a-components = refl

resolve_here_example : resolve here name_a ≡ err invalid_path
resolve_here_example = resolve_here here name_a name_a [] here-IsHere name_a-components

abbrev pub served : Served World Bytes
served = record {
  world = key ∷ srv_a ∷ [];
  channel = record {
    sock = [];
    stats = record { frames_sent = 0; bytes_sent = 0; frames_received = 0; bytes_received = 0 };
    payload_limit = max_payload;
    frame_timeout = 0;
  };
}

-- A request to remove "../key", and one to remove "a".
abbrev unlink : Bytes → Frame
unlink path = record {
  header = record {
    type = MsgTypes.unlink_request;
    flags = 0;
    payload_len = length (write_path_request (record { path = path }));
    request_id = 4;
  };
  payload = write_path_request (record { path = path });
}

handle_mutation-IsOutside_example :
    has (handle_mutation toy inbox srv 7 (unlink up_key) served).1.world key ≡ true
unfolding bytes_eq
handle_mutation-IsOutside_example =
    handle_mutation-IsOutside toy inbox srv 7 (λ w. has w key ≡ true) toy-IsOutside srv_absolute
      (unlink up_key) served refl

abbrev counting : ℕ → Bool × ℕ
counting w = (true, w + 1)

with_retry-IsRetried_example :
    IsRetried (λ b w. b) (λ w. w) 9 3 (with_retry (λ b w. b) counting 3)
    × (8 ≤ 12 → retry_loop (λ b w. b) counting 12 1 (counting 3) ≡ with_retry (λ b w. b) counting 3)
with_retry-IsRetried_example = with_retry-IsRetried (λ b w. b) counting (λ w. w) (λ w. refl) 3 12

abbrev got : ℕ → World → Opened World × World → ℕ
got n v (opened f, w) = length (f.get n v).0
got n v (unopened e, w) = 0

toy-IsReadable : IsReadable toy
toy-IsReadable = record {
  gets = λ p w after f e n v. let same = ap (got n v) e in omega (arith, same);
}

abbrev both : List Bytes
both = name_a ∷ up_key ∷ []

both_read : read_read_many_request (write_read_many_request both ++ []) ≡ ok (both, [])
both_read =
    read_read_many_request-write_read_many_request both [] (omega arith)
      (omega arith, (omega arith, tt))

send_read_many_fits_example :
    (length (write_read_many_response (bulk_items toy inbox srv 0 both (srv_a ∷ [])).0)
      ≤ max_payload)
    × (length (bulk_items toy inbox srv 0 both (srv_a ∷ [])).0 ≡ 2)
send_read_many_fits_example =
    send_read_many_fits toy inbox srv toy-IsReadable (write_read_many_request both ++ []) [] both
      (srv_a ∷ []) both_read
