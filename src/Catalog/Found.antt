-- ===== src/Catalog/Found.antt =====
-- worker/catalog.go: the steps of a lookup at nodes that are stored.
use nix_ci_worker.Base.{
  ℕ, suc, ◌≤◌, ◌<◌, ◌≡◌, refl, sym, ◌∙◌, subst, inl, inr, Text, Dict, List, [], ◌∷◌, ◌++◌, none,
  some, true, false, ◌&&◌, length, ◌==◌, ltb, contains, text_eq, lookup, lookup-insert, has_prefix,
  All, ok, passed, ◌>>=◌, arith, Bool-cases,
}
use nix_ci_worker.Snapshot.Files.{Descriptor}
use nix_ci_worker.Snapshot.Records.{Snapshot}
use nix_ci_worker.Catalog.{CatalogNode, Records, consumer_file}
use nix_ci_worker.Catalog.Partition.{slice, leaf_node}
use nix_ci_worker.Catalog.Partition.Placed.{Entry}
use nix_ci_worker.Catalog.View.{
  Reading, Reachable, View, catalog_node_limit, eq_bool, reachable_blob, check_children,
  check_record, check_records, check_node, valid_shape, same_prefix, read_node, remember_node, node,
  children_of, records_of, name_hash, read_catalog_blob,
}
use nix_ci_worker.Catalog.Lookup.{lookup_from, add_catalog_records}
use nix_ci_worker.Catalog.Published.{Holds}

-- The nodes that were read are among those above.
abbrev pub Seen : View → List Text → Type 0
Seen w above =
    (k : Text) → contains above k ≡ false → (lookup k w.nodes ≡ none) × (lookup k w.prefixes ≡ none)

module _ (reading : Reading) where
  -- The view after a node was read.
  abbrev pub after_node : View → Descriptor → Text → CatalogNode → Text → View
  after_node w d prefix n raw =
      remember_node reading w d prefix (n, some (reading.content_digest raw))

  pub remember_node-Seen :
      (w : View) (d : Descriptor) (prefix : Text) (n : CatalogNode) (raw : Text) (above : List Text)
      → Seen w above
      → Seen (after_node w d prefix n raw) (d.digest ∷ above)
  unfolding remember_node contains
  remember_node-Seen w d prefix n raw above seen k h = elim (Bool-cases (text_eq d.digest k)) [
    | inl e ↦ absurd (ground (arith, e, h))
    | inr e ↦
        let old = seen k (rw e at h) in
        (
          lookup-insert d.digest k n w.nodes ∙ rw e old.0,
          lookup-insert d.digest k prefix w.prefixes ∙ rw e old.1,
        )
  ]

  pub after_node-reachable :
      (w : View) (d : Descriptor) (prefix : Text) (n : CatalogNode) (raw : Text)
      → (after_node w d prefix n raw).reachable ≡ w.reachable
  unfolding remember_node
  after_node-reachable w d prefix n raw = refl

  same_prefix-new :
      (w : View) (d : Descriptor) (prefix : Text)
      → lookup d.digest w.prefixes ≡ none
      → same_prefix reading w d prefix ≡ true
  unfolding same_prefix
  same_prefix-new w d prefix h = rw (h, same_prefix) refl

  read_node-new :
      (w : View) (d : Descriptor) (raw : Text) (n : CatalogNode)
      → lookup d.digest w.nodes ≡ none
      → read_catalog_blob reading d catalog_node_limit ≡ ok raw
      → reading.decode_node raw ≡ ok n
      → read_node reading w d true ≡ ok (n, some (reading.content_digest raw))
  unfolding read_node
  read_node-new w d raw n fresh read decoded = rw (fresh, read_node) (rw read (rw decoded refl))

  pub node_read :
      (reachable : Reachable) (w : View) (d : Descriptor) (prefix : Text) (n : CatalogNode)
      → w.reachable ≡ reachable
      → (lookup d.digest w.nodes ≡ none) × (lookup d.digest w.prefixes ≡ none)
      → Holds reading reachable d n
      → check_node reading reachable prefix true n ≡ ok tt
      → (raw : Text) × (node reading w d prefix true ≡ ok (n, after_node w d prefix n raw))
  unfolding node
  node_read reachable w d prefix n same (fresh, first) (near, (raw, read, decoded)) checked =
      let near_here = subst (λ (m : Reachable). reachable_blob m d ≡ ok tt) (sym same) near in
      let passed_here =
        subst (λ (m : Reachable). check_node reading m prefix true n ≡ ok tt) (sym same) checked in
      let new = same_prefix-new w d prefix first in
      let found = read_node-new w d raw n fresh read decoded in
      (raw, rw (near_here, new, found, passed_here) refl)

  -- A leaf: its records are read.
  pub lookup_from_leaf :
      (fuel : ℕ) (w : View) (name : Text) (d : Descriptor) (prefix : Text) (s : Snapshot)
      (n : CatalogNode) (next : View)
      → node reading w d prefix true ≡ ok (n, next)
      → (length (children_of reading n) == 0) ≡ true
      → lookup_from reading (suc fuel) w name d prefix s
        ≡ (add_catalog_records (records_of reading n) s >>= λ t. ok (t, next))
  unfolding lookup_from
  lookup_from_leaf fuel w name d prefix s n next h e = rw h (rw e refl)

  -- A branch without the digit.
  pub lookup_from_missing :
      (fuel : ℕ) (w : View) (name : Text) (d : Descriptor) (prefix : Text) (s : Snapshot)
      (n : CatalogNode) (next : View)
      → node reading w d prefix true ≡ ok (n, next)
      → (length (children_of reading n) == 0) ≡ false
      → lookup (slice (length prefix) 1 (name_hash reading name)) (children_of reading n) ≡ none
      → lookup_from reading (suc fuel) w name d prefix s ≡ ok (s, next)
  unfolding lookup_from
  lookup_from_missing fuel w name d prefix s n next h e k = rw h (rw e (rw k refl))

  -- A branch with it.
  pub lookup_from_down :
      (fuel : ℕ) (w : View) (name : Text) (d : Descriptor) (prefix : Text) (s : Snapshot)
      (n : CatalogNode) (next : View) (below : Descriptor)
      → node reading w d prefix true ≡ ok (n, next)
      → (length (children_of reading n) == 0) ≡ false
      → lookup (slice (length prefix) 1 (name_hash reading name)) (children_of reading n)
        ≡ some below
      → lookup_from reading (suc fuel) w name d prefix s
        ≡ lookup_from reading fuel next name below
            (prefix ++ slice (length prefix) 1 (name_hash reading name))
            s
  unfolding lookup_from
  lookup_from_down fuel w name d prefix s n next below h e k = rw h (rw e (rw k refl))

  -- A record that passes at the root passes wherever its digest begins with the prefix.
  check_record-prefix :
      (reachable : Reachable) (prefix : Text) (entry : Entry)
      → check_record reading reachable [] true entry ≡ ok tt
      → has_prefix (name_hash reading entry.0) prefix ≡ true
      → check_record reading reachable prefix true entry ≡ ok tt
  unfolding check_record has_prefix
  check_record-prefix reachable prefix (name, r) h k =
      let (key, rest) =
        passed (eq_bool (consumer_file name) true && true) "invalid catalog record key" _ h in
      rw k (rw (key) rest)

  check_records-prefix :
      (reachable : Reachable) (prefix : Text) (records : Records)
      → All (λ en. check_record reading reachable [] true en ≡ ok tt) records
      → All (λ en. has_prefix (name_hash reading en.0) prefix ≡ true) records
      → check_records reading reachable prefix true records ≡ ok tt
  unfolding check_records
  check_records-prefix reachable prefix [] a b = refl
  check_records-prefix reachable prefix (entry ∷ records) a b =
      rw (check_record-prefix reachable prefix entry a.0 b.0)
        (check_records-prefix reachable prefix records a.1 b.1)

  pub check_node_leaf :
      (reachable : Reachable) (prefix : Text) (records : Records)
      → length prefix ≤ 64
      → All (λ en. check_record reading reachable [] true en ≡ ok tt) records
      → All (λ en. has_prefix (name_hash reading en.0) prefix ≡ true) records
      → check_node reading reachable prefix true (leaf_node records) ≡ ok tt
  unfolding check_node valid_shape check_children
  check_node_leaf reachable prefix records small a b =
      let short : ltb 64 (length prefix) ≡ false = ground arith in
      rw short (check_records-prefix reachable prefix records a b)

  pub check_node_branch :
      (reachable : Reachable) (prefix : Text) (ds : Dict Descriptor)
      → length prefix < 64
      → (length ds == 0) ≡ false
      → check_children reachable prefix ds ≡ ok tt
      → check_node reading reachable prefix true (record { records = none; children = some ds })
        ≡ ok tt
  unfolding check_node valid_shape check_records
  check_node_branch reachable prefix ds small some_child checked =
      let short : ltb 64 (length prefix) ≡ false = ground arith in
      rw (short, some_child, checked) refl
