-- ===== src/Client/Requests/Atomic.antt =====
-- What a request that changes the served tree does to the mirror, by the agent's reply.
use wsldrive.Prelude.{
  ℕ, ◌+◌, ◌%◌, ◌^◌, ◌≡◌, refl, Bool, false, Bytes, bytes_eq, length, ltb, none, some, [],
  Bool-cases, inl, inr, if◌then◌else◌,
}
use mathlib.Core.Path.{subst}
use wsldrive.Prelude.Int.{ℤ, pos}
use wsldrive.Types.{Result, ok, err, Attributes, directory}
use wsldrive.Paths.{normalize_path}
use wsldrive.Protocol.Header.{MsgType}
use wsldrive.Protocol.MsgTypes
use wsldrive.Protocol.Requests.{
  MutationAck, WriteResponse, write_create_request, write_write_request, write_truncate_request,
  write_mkdir_request, write_path_request, read_mutation_ack, read_write_response,
}
use wsldrive.Tree.{MetadataTree}
use wsldrive.Tree.Lookup.{lookup}
use wsldrive.Tree.Mutate.{upsert_path, remove_path}
use wsldrive.Client.Cache.{find_entry, drop_cached, under}
use wsldrive.Client.Cache.Invariant.{IsCache}
use wsldrive.Client.Cache.Prefix.{find_entry-drop_cached, find_entry-drop_cached_prefix}
use wsldrive.Client.Mirror.{Mirror, Mutations, find_mutation, note_mutation}
use wsldrive.Client.Mirror.Kept.{find_mutation-erase_mutation}
use wsldrive.Client.Mirror.Stale.{find_mutation-note_mutation}
use wsldrive.Client.Requests.{
  Reply, Client, create_mirror, written_tree, write_mirror, truncated_tree, truncate_mirror,
  unlink_mirror, rmdir_mirror, read_created, ask, settled, create_file, write, acknowledged,
  truncate, mkdir, unlink, rmdir,
}

-- The mirror after a change of a path that the agent acknowledged with a generation: the generation is
-- noted for the path, other paths have theirs unless the table was full, exactly the keys that are
-- dropped have left the cache, and the tree is the given one.
pub record IsMutated (path : Bytes) (drops : Bytes → Bool) (g : ℕ) (tree : MetadataTree)
    (m n : Mirror) : Type 0 where
  pub noted : find_mutation (normalize_path path) n.mutations ≡ some g
  pub others :
      (q : Bytes)
      → bytes_eq (normalize_path path) q ≡ false
      → find_mutation q n.mutations
        ≡ (if ltb 65536 (length m.mutations) then none else find_mutation q m.mutations)
  pub cached :
      (k : Bytes)
      → find_entry k n.cache.entries ≡ (if drops k then none else find_entry k m.cache.entries)
  pub changed : n.tree ≡ tree

-- By what was read from the reply: an error is the result and the mirror is as it was, or there is a
-- result and the mirror is as the change makes it.
abbrev pub Outcome :
    {W A B : Type 0}
    → Result (A × Bytes)
    → (A → Mirror → Type 0)
    → Mirror
    → Result B × Client W
    → Type 0
Outcome (err e) change m (r, c) = (r ≡ err e) × (c.mirror ≡ m)
Outcome {B = B} (ok (a, rest)) change m (r, c) = ((b : B) × (r ≡ ok b)) × change a c.mirror

others_noted :
    (path : Bytes) (g : ℕ) (m : Mirror) (q : Bytes)
    → bytes_eq (normalize_path path) q ≡ false
    → find_mutation q (note_mutation path g m).mutations
      ≡ (if ltb 65536 (length m.mutations) then none else find_mutation q m.mutations)
unfolding note_mutation find_mutation
others_noted path g m q h =
    let kept = (if ltb 65536 (length m.mutations) then [] else m.mutations) in
    rw (h, find_mutation-erase_mutation (normalize_path path) q kept h)
      (elim (Bool-cases (ltb 65536 (length m.mutations))) [ inl b ↦ rw b refl | inr b ↦ rw b refl ])

noted-IsMutated :
    (path : Bytes) (drops : Bytes → Bool) (g : ℕ) (m n : Mirror)
    → n.mutations ≡ m.mutations
    → ((k : Bytes)
        → find_entry k n.cache.entries ≡ (if drops k then none else find_entry k m.cache.entries))
    → IsMutated path drops g n.tree m (note_mutation path g n)
unfolding note_mutation
noted-IsMutated path drops g m n e c = record {
  noted = find_mutation-note_mutation path g n;
  others = λ q h.
      subst
        (λ (ms : Mutations).
          find_mutation q (note_mutation path g n).mutations
          ≡ (if ltb 65536 (length ms) then none else find_mutation q ms))
        e (others_noted path g n q h);
  cached = c;
  changed = refl;
}

-- No key is dropped.
abbrev pub nothing : Bytes → Bool
nothing k = false

module _ {W : Type 0} (exchange : MsgType → Bytes → W → Result Reply × W) where
  settled-Outcome :
      {A B : Type 0} (result : A → B) (change : A → Mirror → Mirror)
      (is_right : A → Mirror → Type 0) (m : Mirror) (r : Result (A × Bytes) × W)
      → ((a : A) → is_right a (change a m))
      → Outcome r.0 is_right m (settled exchange result change m r)
  unfolding settled
  settled-Outcome result change is_right m (err e, w) right = (refl, refl)
  settled-Outcome result change is_right m (ok (a, rest), w) right = ((result a, refl), right a)

  -- By what the client reads from the agent's reply, a request to create, write, truncate or remove
  -- fails with the error and leaves the mirror as it was; or the mirror has the generation of the reply
  -- noted for the path, has lost the contents cached for what is written or removed and no others, and
  -- has the tree with the change.
  pub requests-IsMutated :
      (now : ℤ) (path : Bytes) (mode offset : ℕ) (contents : Bytes) (c : Client W)
      → IsCache c.mirror.cache
      → Outcome
          (ask exchange MsgTypes.create_request
            (write_create_request (record { path = path; mode = mode }))
            MsgTypes.create_response
            read_created
            c.connection).0
          (λ (a : Attributes × MutationAck).
            IsMutated path nothing a.1.generation (upsert_path c.mirror.tree path a.0).1 c.mirror)
          c.mirror
          (create_file exchange path mode c)
        × Outcome
            (ask exchange MsgTypes.write_request
              (write_write_request (record { path = path; offset = offset; contents = contents }))
              MsgTypes.write_response
              read_write_response
              c.connection).0
            (λ (a : WriteResponse).
              IsMutated path
                (bytes_eq path)
                a.generation
                (written_tree now path
                  ((offset + a.written) % 2 ^ 64)
                  (lookup c.mirror.tree path c.mirror.mode)
                  c.mirror.tree)
                c.mirror)
            c.mirror
            (write exchange now path offset contents c)
        × Outcome
            (ask exchange MsgTypes.truncate_request
              (write_truncate_request (record { path = path; size = offset }))
              MsgTypes.success
              read_mutation_ack
              c.connection).0
            (λ (a : MutationAck).
              IsMutated path
                (bytes_eq path)
                a.generation
                (truncated_tree now offset (lookup c.mirror.tree path c.mirror.mode) c.mirror.tree)
                c.mirror)
            c.mirror
            (truncate exchange now path offset c)
        × Outcome
            (ask exchange MsgTypes.mkdir_request
              (write_mkdir_request (record { path = path; mode = mode }))
              MsgTypes.success
              read_mutation_ack
              c.connection).0
            (λ (a : MutationAck).
              IsMutated path nothing a.generation
                (upsert_path c.mirror.tree path
                  (record { size = 0; mtime_ns = pos 0; mode = mode; kind = directory })).1
                c.mirror)
            c.mirror
            (mkdir exchange path mode c)
        × Outcome
            (ask exchange MsgTypes.unlink_request
              (write_path_request (record { path = path }))
              MsgTypes.success
              read_mutation_ack
              c.connection).0
            (λ (a : MutationAck).
              IsMutated path
                (bytes_eq path)
                a.generation
                (remove_path c.mirror.tree path c.mirror.mode).1
                c.mirror)
            c.mirror
            (unlink exchange path c)
        × Outcome
            (ask exchange MsgTypes.rmdir_request
              (write_path_request (record { path = path }))
              MsgTypes.success
              read_mutation_ack
              c.connection).0
            (λ (a : MutationAck).
              IsMutated path
                (under path)
                a.generation
                (remove_path c.mirror.tree path c.mirror.mode).1
                c.mirror)
            c.mirror
            (rmdir exchange path c)
  unfolding create_file write truncate mkdir unlink rmdir acknowledged create_mirror write_mirror
      truncate_mirror unlink_mirror rmdir_mirror
  requests-IsMutated now path mode offset contents c h = (
    settled-Outcome _ _ _ c.mirror _
        (λ a. noted-IsMutated path nothing _ c.mirror _ refl (λ k. refl)),
    settled-Outcome _ _ _ c.mirror _
        (λ a. noted-IsMutated path (bytes_eq path) _ c.mirror _ refl one),
    settled-Outcome _ _ _ c.mirror _
        (λ a. noted-IsMutated path (bytes_eq path) _ c.mirror _ refl one),
    settled-Outcome _ _ _ c.mirror _
        (λ a. noted-IsMutated path nothing _ c.mirror _ refl (λ k. refl)),
    settled-Outcome _ _ _ c.mirror _
        (λ a. noted-IsMutated path (bytes_eq path) _ c.mirror _ refl one),
    settled-Outcome _ _ _ c.mirror _ (λ a.
        noted-IsMutated path (under path) _ c.mirror _ refl
          (λ k. find_entry-drop_cached_prefix path c.mirror.cache k h)),
  )
    where
      one :
          (k : Bytes)
          → find_entry k (drop_cached path c.mirror.cache).entries
            ≡ (if bytes_eq path k then none else find_entry k c.mirror.cache.entries)
      one k = find_entry-drop_cached path k c.mirror.cache h
