-- ===== src/Catalog/Roundtrip.antt =====
-- worker/catalog.go: the part of a published catalog's records that a lookup reads.
use nix_ci_worker.Base.{
  ℕ, zero, suc, ◌-◌, ◌≤◌, ◌<◌, ◌≡◌, refl, sym, ap, ◌∙◌, subst, inl, inr, Text, List, [], ◌∷◌, ◌++◌,
  Option, none, some, true, false, length, length-append, length-map, ◌==◌, leb, contains, keys,
  lookup, sorted_keys, has_prefix, IsUnique, All, All-map, ok, ok_eq, ◌>>=◌, arith, List-cases,
  lookup_entry, text_eq_self, false≢true, ==_iff, and_parts,
}
use nix_ci_worker.Snapshot.Files.{Descriptor}
use nix_ci_worker.Snapshot.Records.{Snapshot, new_snapshot}
use nix_ci_worker.Catalog.{CatalogRecord, CatalogNode, Records, no_descriptor}
use nix_ci_worker.Catalog.Partition.{
  Partition, branch, Children, Encoding, slice, nibble, group, leaf_node, partition_from,
  partition_catalog,
}
use nix_ci_worker.Catalog.Partition.Groups.{
  at, lookup-at, at-IsUnique, group-IsUnique, lookup-groups, lookup_empty, Exceeds, partition_last,
  partition_cases, split_at_depth, Fits,
}
use nix_ci_worker.Catalog.Partition.Placed.{
  Entry, Grouped, at-Grouped, group-Grouped, has_prefix-slice,
}
use nix_ci_worker.Catalog.View.{Reading, Reachable, View, check_record, name_hash}
use nix_ci_worker.Catalog.Lookup.{lookup_from, lookup_name, add_catalog_records}
use nix_ci_worker.Catalog.Digits.{
  AreDigests, is_digit, nibble-name_hash, nibble-is_digit, sorted_keys-is_digit,
}
use nix_ci_worker.Catalog.Published.{Holds, Stored, AllStored-lookup, AllStored-check_children}
use nix_ci_worker.Catalog.Found.{
  Seen, after_node, after_node-reachable, remember_node-Seen, node_read, lookup_from_leaf,
  lookup_from_missing, lookup_from_down, check_node_leaf, check_node_branch,
}

none≢some : (r : CatalogRecord) → ◌≡◌ {A = Option CatalogRecord} none (some r) → ⊥
none≢some r h = cc

suc_not_zero : (n : ℕ) → (suc n == 0) ≡ false
suc_not_zero n = ground arith

module _ (reading : Reading) (reachable : Reachable) (P : Entry → Type 0) where
  -- A record that the check lets through, below a prefix.
  abbrev Good : Text → Entry → Type 0
  Good prefix entry =
      (check_record reading reachable [] true entry ≡ ok tt)
      × ((has_prefix (name_hash reading entry.0) prefix ≡ true) × P entry)

  -- What a lookup reads: a part of the records that answers for the name as all of them do.
  abbrev ReadsPart : ℕ → View → Text → Descriptor → Text → Snapshot → Records → Type 0
  ReadsPart fuel w name d prefix s records =
      (part : Records) × (next : View) × (lookup_from reading fuel w name d prefix s
        ≡ (add_catalog_records part s >>= λ t. ok (t, next)))
      × (lookup name part ≡ lookup name records)
      × IsUnique (keys part)
      × All P part

  reads_leaf :
      (fuel : ℕ) (w : View) (above : List Text) (name : Text) (d : Descriptor) (prefix : Text)
      (s : Snapshot) (records : Records)
      → length prefix ≤ 64
      → w.reachable ≡ reachable
      → Seen w above
      → contains above d.digest ≡ false
      → Holds reading reachable d (leaf_node records)
      → IsUnique (keys records)
      → All (Good prefix) records
      → ReadsPart (suc fuel) w name d prefix s records
  reads_leaf fuel w above name d prefix s records small same seen fresh held unique good =
      let checked =
        check_node_leaf reading reachable prefix records small (All-map records (λ en a. a.0) good)
          (All-map records (λ en a. a.1.0) good) in
      let (raw, h) =
        node_read reading reachable w d prefix (leaf_node records) same (seen d.digest fresh) held
          checked in
      (
        records,
        after_node reading w d prefix (leaf_node records) raw,
        lookup_from_leaf reading fuel w name d prefix s (leaf_node records) _ h refl,
        refl,
        unique,
        All-map records (λ en a. a.1.1) good,
      )

  module _ (digests : AreDigests reading.content_digest) (e : Encoding)
      (one : e.content_digest ≡ reading.content_digest) (limit : ℕ)
      (empty_fits : Fits e limit []) where
    -- Records that are split are there, and so are the branch's digits.
    digits_there :
        (depth : ℕ) (records : Records)
        → Exceeds e limit records
        → IsUnique (keys records)
        → (length (sorted_keys (group e depth records [])) == 0) ≡ false
    unfolding contains
    digits_there depth [] (raw, read, large) unique =
        let (raw2, read2, fits) = empty_fits in
        let same : raw ≡ raw2 = ok_eq raw raw2 (sym read ∙ read2) in
        absurd (false≢true (sym large ∙ ap (λ (t : Text). leb (length t) limit) same ∙ fits))
    digits_there depth ((n, r) ∷ records) large unique =
        let groups = group e depth ((n, r) ∷ records) [] in
        elim (List-cases (sorted_keys groups)) [
          | inl empty ↦
              let hit =
                lookup-groups e depth ((n, r) ∷ records) n unique ∙ lookup_entry n n r records in
              let none_here = rw empty at (lookup-at (nibble e depth n) n groups) in
              absurd (none≢some r (none_here ∙ hit ∙ rw (text_eq_self n) refl))
          | inr (x, rest, same) ↦ rw same (suc_not_zero (length rest))
        ]

    next_length :
        (depth left : ℕ) (prefix key : Text)
        → suc left ≤ 64
        → length prefix ≡ 64 - suc left
        → is_digit key ≡ true
        → length (prefix ++ key) ≡ 64 - left
    next_length depth left prefix key small long hex =
        let single = (==_iff (length key) 1).0 (and_parts (length key == 1) _ hex).0 in
        omega (arith, length-append prefix key, single, long)

    Good-append :
        (depth : ℕ) (prefix : Text)
        → length prefix ≡ depth
        → (entry : Entry) (digit key : Text) → digit ≡ key
        → Grouped e depth (Good prefix) digit entry
        → Good (prefix ++ key) entry
    Good-append depth prefix long entry digit key same (here, (checked, (starts, p))) =
        let own : slice (length prefix) 1 (name_hash reading entry.0) ≡ key =
          ap (λ (i : ℕ). slice i 1 (name_hash reading entry.0)) long
          ∙ sym (nibble-name_hash reading digests e one depth entry.0)
          ∙ here
          ∙ same in
        (
          checked,
          (
            subst (λ k. has_prefix (name_hash reading entry.0) (prefix ++ k) ≡ true) own
                (has_prefix-slice (name_hash reading entry.0) prefix starts),
            p,
          ),
        )

    reads_branch :
        (left fuel : ℕ) (w : View) (above : List Text) (name : Text) (d : Descriptor)
        (prefix : Text) (s : Snapshot) (records : Records) (held : Children)
        → suc left ≤ 64
        → length prefix ≡ 64 - suc left
        → Exceeds e limit records
        → split_at_depth e limit left records ≡ ok held
        → Stored reading reachable above d (branch no_descriptor limit held)
        → Seen w above
        → w.reachable ≡ reachable
        → IsUnique (keys records)
        → All (Good prefix) records
        → ((v : View) (below : Descriptor) (q : Text) (group_records : Records) (plan : Partition)
            → length q ≡ 64 - left
            → partition_from e limit left group_records ≡ ok plan
            → Stored reading reachable (d.digest ∷ above) below plan
            → Seen v (d.digest ∷ above)
            → v.reachable ≡ reachable
            → IsUnique (keys group_records)
            → All (Good q) group_records
            → ReadsPart fuel v name below q s group_records)
        → ReadsPart (suc fuel) w name d prefix s records
    unfolding Stored add_catalog_records
    reads_branch left fuel w above name d prefix s records held small long large made
          (fresh, (ds, held_here, stored)) seen same unique good ih =
        let depth = 64 - suc left in
        let groups = group e depth records [] in
        let key = slice (length prefix) 1 (name_hash reading name) in
        let digit : nibble e depth name ≡ key =
          nibble-name_hash reading digests e one depth name
          ∙ ap (λ (i : ℕ). slice i 1 (name_hash reading name)) (sym long) in
        let answer =
          AllStored-lookup reading reachable (partition_from e limit left) groups
            (sorted_keys groups) held (d.digest ∷ above) ds (nibble e depth name) made stored in
        let hex =
          subst (λ (ks : List Text). All (λ k. is_digit k ≡ true) ks) (sym answer.0)
            (sorted_keys-is_digit reading digests e one depth records (omega arith)) in
        let there : (length ds == 0) ≡ false =
          subst (λ (i : ℕ). (i == 0) ≡ false)
            (sym (sym (length-map (λ (x : Text × Descriptor). x.0) ds) ∙ ap length answer.0))
            (digits_there depth records large unique) in
        let checked = check_node_branch reading reachable prefix ds (omega arith) there (
          AllStored-check_children reading reachable prefix (d.digest ∷ above) ds held (omega arith)
            stored hex) in
        let n : CatalogNode = record { records = none; children = some ds } in
        let (raw, h) =
          node_read reading reachable w d prefix n same (seen d.digest fresh) held_here checked in
        let next = after_node reading w d prefix n raw in
        elim answer.1 [
          | inl (gone, absent) ↦ (
            [],
            next,
            lookup_from_missing reading fuel w name d prefix s n next h there
                (subst (λ k. lookup k ds ≡ none) digit gone),
            lookup_empty name
                ∙ (rw absent at (lookup-at (nibble e depth name) name groups))
                ∙ lookup-groups e depth records name unique,
            tt,
            tt,
          )
          | inr (below, plan, found, planned, stored_below) ↦
              let (part, last, step, agrees, distinct, all_p) =
                ih next below (prefix ++ key) (at (nibble e depth name) groups) plan
                  (next_length depth left prefix key small long (
                    subst (λ k. is_digit k ≡ true) digit
                      (nibble-is_digit reading digests e one depth name (omega arith))))
                  planned stored_below (remember_node-Seen reading w d prefix n raw above seen)
                  (after_node-reachable reading w d prefix n raw ∙ same)
                  (at-IsUnique (nibble e depth name) groups (group-IsUnique e depth records [] tt))
                  (All-map (at (nibble e depth name) groups)
                    (λ en a. Good-append depth prefix long en (nibble e depth name) key digit a)
                    (at-Grouped e depth (Good prefix) (nibble e depth name) groups
                      (group-Grouped e depth (Good prefix) records [] good tt))) in
              (
                part,
                last,
                lookup_from_down reading fuel w name d prefix s n next below h there
                      (subst (λ k. lookup k ds ≡ some below) digit found)
                    ∙ step,
                agrees ∙ lookup-groups e depth records name unique,
                distinct,
                all_p,
              )
        ]

    reads :
        (left fuel : ℕ) (w : View) (above : List Text) (name : Text) (d : Descriptor)
        (prefix : Text) (s : Snapshot) (records : Records) (plan : Partition)
        → left ≤ 64
        → left < fuel
        → length prefix ≡ 64 - left
        → partition_from e limit left records ≡ ok plan
        → Stored reading reachable above d plan
        → Seen w above
        → w.reachable ≡ reachable
        → IsUnique (keys records)
        → All (Good prefix) records
        → ReadsPart fuel w name d prefix s records
    unfolding Stored
    reads left zero w above name d prefix s records plan small enough long made stored seen same
          unique good =
        absurd (omega arith)
    reads zero (suc fuel) w above name d prefix s records plan small enough long made stored seen
          same unique good =
        let (fits, leaf_plan) = partition_last e limit records plan made in
        let held = subst (Stored reading reachable above d) leaf_plan stored in
        reads_leaf fuel w above name d prefix s records (omega arith) same seen held.0 held.1 unique
          good
    reads (suc left) (suc fuel) w above name d prefix s records plan small enough long made stored
          seen same unique good =
        elim (partition_cases e limit left records plan made) [
          | inl (fits, leaf_plan) ↦
              let held = subst (Stored reading reachable above d) leaf_plan stored in
              reads_leaf fuel w above name d prefix s records (omega arith) same seen held.0 held.1
                unique good
          | inr (large, held, split, branch_plan) ↦
              reads_branch left fuel w above name d prefix s records held small long large split
                (subst (Stored reading reachable above d) branch_plan stored) seen same unique good
                (λ v below q group_records p l m st se sa un go.
                  reads left fuel v (d.digest ∷ above) name below q s group_records p (omega arith)
                    (omega arith) l m st se sa un go)
        ]

    pub lookup_published :
        (w : View) (name : Text) (records : Records) (plan : Partition)
        → IsUnique (keys records)
        → All (λ en. (check_record reading reachable [] true en ≡ ok tt) × P en) records
        → partition_catalog e limit records ≡ ok plan
        → Stored reading reachable [] w.root.index plan
        → Seen w []
        → w.reachable ≡ reachable
        → (part : Records) × (next : View) × (lookup_name reading w name
            ≡ (add_catalog_records part new_snapshot >>= λ t. ok (t, next)))
          × (lookup name part ≡ lookup name records)
          × IsUnique (keys part)
          × All P part
    unfolding partition_catalog lookup_name has_prefix
    lookup_published w name records plan unique good made stored seen same =
        reads 64 66 w [] name w.root.index [] new_snapshot records plan (omega arith) (omega arith)
          refl made stored seen same unique (All-map records (λ en a. (a.0, (refl, a.1))) good)
