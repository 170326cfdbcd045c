-- ===== src/Client/Requests/Versions.antt =====
-- The version of a file after this client has changed it: contents that were fetched before are no hit
-- any more, also where they reach the cache later.
use wsldrive.Prelude.{
  ℕ, zero, suc, ◌+◌, ◌-◌, ◌<◌, ◌≡◌, refl, ap, ◌∙◌, Bool, true, false, not, ◌&&◌, &&_iff, List, [],
  ◌∷◌, Bytes, length, ltb, ltb→lt, ◌==◌, Option, none, some, if_elim, arith,
}
use wsldrive.Prelude.Int.{ℤ, pos, negsuc}
use wsldrive.Types.{Result, Attributes}
use wsldrive.Tree.{MetadataTree, Node, node, set_node, valid, is_dir, is_directory}
use wsldrive.Tree.Lookup.{lookup}
use wsldrive.Tree.Mutate.{set_attr, release_children, set_attributes}
use wsldrive.Protocol.Requests.{WriteResponse}
use wsldrive.Client.Cache.{ReadCache, cache_put, drop_cached, same_time, hit, cached}
use wsldrive.Client.Cache.Invariant.{IsCache}
use wsldrive.Client.Cache.Prefix.{drop_cached-IsCache}
use wsldrive.Client.Cache.Bounded.{find_entry-cache_put}
use wsldrive.Client.Mirror.{Mirror, note_mutation}
use wsldrive.Client.Requests.{
  max_time, next_time, bump_mtime, written_tree, write_mirror, truncated_tree, truncate_mirror,
}

-- The new time of a file is not the old one, whatever the clock says.
bump_mtime_differs : (now previous : ℤ) → same_time previous (bump_mtime now previous) ≡ false
unfolding bump_mtime max_time next_time same_time
bump_mtime_differs (pos n) (pos a) =
    if_elim (λ (z : ℤ). same_time (pos a) z ≡ false) (ltb n (a + 1)) (pos (a + 1)) (pos n)
      (λ _. ground arith) (λ b. ground arith)
bump_mtime_differs (negsuc n) (pos a) = ground arith
bump_mtime_differs (pos n) (negsuc a) =
    if_elim (λ (z : ℤ). same_time (negsuc a) (max_time (pos n) z) ≡ false) (a == 0) (pos 0)
      (negsuc (a - 1))
      (λ _.
        if_elim (λ (z : ℤ). same_time (negsuc a) z ≡ false) (ltb n 0) (pos 0) (pos n) (λ _. refl)
          (λ _. refl))
      (λ _. refl)
bump_mtime_differs (negsuc n) (negsuc a) =
    if_elim (λ (z : ℤ). same_time (negsuc a) (max_time (negsuc n) z) ≡ false) (a == 0) (pos 0)
      (negsuc (a - 1)) (λ _. refl)
      (λ b.
        if_elim (λ (z : ℤ). same_time (negsuc a) z ≡ false) (ltb (a - 1) n) (negsuc (a - 1))
          (negsuc n) (λ _. ground arith) (λ c. ground arith))

node-set_node :
    (nodes : List Node) (id : ℕ) (n : Node) → id < length nodes → node (set_node nodes id n) id ≡ n
unfolding node set_node
node-set_node [] id n h = absurd (omega arith)
node-set_node (m ∷ nodes) zero n h = refl
node-set_node (m ∷ nodes) (suc id) n h = node-set_node nodes id n (omega arith)

-- Attributes of the same kind are all that changes in a node.
node-set_attributes :
    (t : MetadataTree) (id : ℕ) (attr : Attributes)
    → valid t id ≡ true
    → attr.kind ≡ (node t.nodes id).attr.kind
    → (node (set_attributes t id attr).1.nodes id).attr ≡ attr
unfolding set_attributes set_attr valid is_dir
node-set_attributes t id attr v kind =
    if_elim (λ (r : Result (Unit {0}) × MetadataTree). (node r.1.nodes id).attr ≡ attr)
      (not (valid t id)) _ _ (λ bad. absurd (cc))
      (λ _.
        if_elim (λ (s : MetadataTree). (node (set_attr id attr s).nodes id).attr ≡ attr)
          (is_directory (node t.nodes id).attr.kind
            && (not (is_directory attr.kind) && not ((node t.nodes id).child_count == 0)))
          (release_children (length t.nodes) id t) t
          (λ yes. absurd (no_change _ _ _ (ap is_directory kind) yes))
          (λ _. ap (λ (n : Node). n.attr) (node-set_node t.nodes id _ (in_range v))))
  where
    no_change : (d e x : Bool) → e ≡ d → (d && (not e && x)) ≡ true → ⊥
    no_change d e x h y = ground arith

    in_range : valid t id ≡ true → id < length t.nodes
    in_range h = ltb→lt id (length t.nodes) (((&&_iff _ _).0 h).0)

misses :
    (path : Bytes) (old_mtime new_mtime : ℤ) (old_size new_size : ℕ) (contents : Bytes)
    (c : ReadCache)
    → IsCache c
    → same_time old_mtime new_mtime ≡ false
    → (cached path new_mtime new_size (cache_put path old_mtime old_size contents c)).0 ≡ none
unfolding cached hit
misses path old_mtime new_mtime old_size new_size contents c h differ =
    rw (find_entry-cache_put path old_mtime old_size contents c h, differ) refl

module _ (now : ℤ) (path : Bytes) (m : Mirror) (id : ℕ) where
  -- The version of the node before, and what a later read of the path under its version finds.
  abbrev pub stale_read : Bytes → Mirror → Option Bytes
  stale_read contents n =
      let old = (node m.tree.nodes id).attr in
      let new = (node n.tree.nodes id).attr in
      (cached path new.mtime_ns new.size (cache_put path old.mtime_ns old.size contents n.cache)).0

  written_mtime :
      (offset : ℕ) (resp : WriteResponse)
      → lookup m.tree path m.mode ≡ some id
      → valid m.tree id ≡ true
      → (node (write_mirror now path offset resp m).tree.nodes id).attr.mtime_ns
        ≡ bump_mtime now (node m.tree.nodes id).attr.mtime_ns
  unfolding write_mirror note_mutation written_tree
  written_mtime offset resp found v =
      rw found (ap (λ (a : Attributes). a.mtime_ns) (node-set_attributes m.tree id _ v refl))

  truncated_mtime :
      (size generation : ℕ)
      → lookup m.tree path m.mode ≡ some id
      → valid m.tree id ≡ true
      → (node (truncate_mirror now path size generation m).tree.nodes id).attr.mtime_ns
        ≡ bump_mtime now (node m.tree.nodes id).attr.mtime_ns
  unfolding truncate_mirror note_mutation truncated_tree
  truncated_mtime size generation found v =
      rw found (ap (λ (a : Attributes). a.mtime_ns) (node-set_attributes m.tree id _ v refl))

  -- After an acknowledged write or truncation of a file that the mirror has, contents put into the
  -- cache under the version that the file had before are no hit for the version it has then, whatever
  -- the clock says.
  pub stale_read-none :
      (contents : Bytes) (offset size : ℕ) (resp : WriteResponse)
      → lookup m.tree path m.mode ≡ some id
      → valid m.tree id ≡ true
      → IsCache m.cache
      → (stale_read contents (write_mirror now path offset resp m) ≡ none)
        × (stale_read contents (truncate_mirror now path size resp.generation m) ≡ none)
  unfolding write_mirror truncate_mirror note_mutation
  stale_read-none contents offset size resp found v h = (
    misses path old _ _ _ contents _ kept
        (ap (same_time old) (written_mtime offset resp found v) ∙ bump_mtime_differs now old),
    misses path old _ _ _ contents _ kept (
        ap (same_time old) (truncated_mtime size resp.generation found v)
        ∙ bump_mtime_differs now old),
  )
    where
      old : ℤ
      old = (node m.tree.nodes id).attr.mtime_ns

      kept : IsCache (drop_cached path m.cache)
      kept = drop_cached-IsCache path m.cache h
