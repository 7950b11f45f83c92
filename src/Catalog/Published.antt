-- ===== src/Catalog/Published.antt =====
-- worker/catalog.go: what publishCatalog leaves behind for a tree of nodes, as a lookup meets it.
use nix_ci_worker.Base.{
  ◌<◌, ◌≡◌, refl, sym, ap, subst, ◌⊎◌, inl, inr, Text, Dict, List, [], ◌∷◌, none, some, true, false,
  length, ltb, contains, text_eq, text_eq_iff, keys, lookup, All, Result, ok, ok_eq, ok_parts,
  arith, Bool-cases,
}
use nix_ci_worker.Snapshot.Files.{Descriptor}
use nix_ci_worker.Catalog.{CatalogNode, Records}
use nix_ci_worker.Catalog.Partition.{
  Partition, leaf, branch, Children, no_children, child, partition_groups, leaf_node,
}
use nix_ci_worker.Catalog.Partition.Groups.{at}
use nix_ci_worker.Catalog.Digits.{is_digit}
use nix_ci_worker.Catalog.View.{
  Reading, Reachable, catalog_node_limit, reachable_blob, check_child, check_children,
  read_catalog_blob,
}

module _ (reading : Reading) (reachable : Reachable) where
  -- The blob of a descriptor is a layer and reads as the node.
  abbrev pub Holds : Descriptor → CatalogNode → Type 0
  Holds d node =
      (reachable_blob reachable d ≡ ok tt)
      × ((raw : Text) × (read_catalog_blob reading d catalog_node_limit ≡ ok raw)
          × (reading.decode_node raw ≡ ok node))

  -- A tree is stored under a descriptor, and no digest stands below itself.
  unfoldable mutual
    pub Stored : List Text → Descriptor → Partition → Type 0
    Stored above d (leaf own limit records) =
        (contains above d.digest ≡ false) × Holds d (leaf_node records)
    Stored above d (branch own limit children) =
        (contains above d.digest ≡ false)
        × ((ds : Dict Descriptor) × Holds d (record { records = none; children = some ds })
            × AllStored (d.digest ∷ above) ds children)

    pub AllStored : List Text → Dict Descriptor → Children → Type 0
    AllStored above [] no_children = Unit
    AllStored above [] (child key plan rest) = ⊥
    AllStored above (entry ∷ ds) no_children = ⊥
    AllStored above (entry ∷ ds) (child key plan rest) =
        (entry.0 ≡ key)
        × ((reachable_blob reachable entry.1 ≡ ok tt)
            × (Stored above entry.1 plan × AllStored above ds rest))

  AllStored-no_children :
      (above : List Text) (ds : Dict Descriptor) → AllStored above ds no_children → ds ≡ []
  unfolding Stored
  AllStored-no_children above [] h = refl
  AllStored-no_children above (entry ∷ ds) h = absurd h

  AllStored-child :
      (above : List Text) (ds : Dict Descriptor) (key : Text) (plan : Partition) (rest : Children)
      → AllStored above ds (child key plan rest)
      → (d : Descriptor) × (later : Dict Descriptor) × (ds ≡ (key, d) ∷ later)
        × (reachable_blob reachable d ≡ ok tt)
        × Stored above d plan
        × AllStored above later rest
  unfolding Stored
  AllStored-child above [] key plan rest h = absurd h
  AllStored-child above ((k, d) ∷ ds) key plan rest h =
      (d, ds, ap (λ (x : Text). (x, d) ∷ ds) h.0, h.1.0, h.1.1.0, h.1.1.1)

  -- What a stored node's children are: those of the digits, in order.
  abbrev pub Answer :
      (Records → Result Partition)
      → Dict Records
      → List Text
      → List Text
      → Text
      → Dict Descriptor
      → Type 0
  Answer split groups digits above key ds =
      (keys ds ≡ digits)
      × (((lookup key ds ≡ none) × (contains digits key ≡ false))
          ⊎ ((d : Descriptor) × (plan : Partition) × (lookup key ds ≡ some d)
              × (split (at key groups) ≡ ok plan)
              × Stored above d plan))

  Answer-entry :
      (split : Records → Result Partition) (groups : Dict Records) (digit : Text)
      (digits above : List Text) (key : Text) (d : Descriptor) (plan : Partition)
      (ds : Dict Descriptor)
      → split (at digit groups) ≡ ok plan
      → Stored above d plan
      → Answer split groups digits above key ds
      → Answer split groups (digit ∷ digits) above key ((digit, d) ∷ ds)
  unfolding lookup contains
  Answer-entry split groups digit digits above key d plan ds h stored (same, rest) =
      elim (Bool-cases (text_eq digit key)) [
        | inl e ↦ (
          ap (λ (x : List Text). digit ∷ x) same,
          inr (
            d,
            plan,
            rw e refl,
            subst (λ k. split (at k groups) ≡ ok plan) ((text_eq_iff digit key).0 e) h,
            stored,
          ),
        )
        | inr e ↦ (ap (λ (x : List Text). digit ∷ x) same, rw e rest)
      ]

  pub AllStored-lookup :
      (split : Records → Result Partition) (groups : Dict Records) (digits : List Text)
      (held : Children) (above : List Text) (ds : Dict Descriptor) (key : Text)
      → partition_groups split groups digits ≡ ok held
      → AllStored above ds held
      → Answer split groups digits above key ds
  unfolding partition_groups lookup contains
  AllStored-lookup split groups [] held above ds key h stored =
      let empty =
        AllStored-no_children above ds
          (subst (AllStored above ds) (sym (ok_eq no_children held h)) stored) in
      rw empty (refl, inl (refl, refl))
  AllStored-lookup split groups (digit ∷ digits) held above ds key h stored =
      let (first, h1, rest) = ok_parts (split (at digit groups)) _ h in
      let (others, h2, last) = ok_parts (partition_groups split groups digits) _ rest in
      let (d, later, same, near, here, more) =
        AllStored-child above ds digit first others
          (subst (AllStored above ds) (sym (ok_eq (child digit first others) held last)) stored) in
      subst (Answer split groups (digit ∷ digits) above key) (sym same) (
        Answer-entry split groups digit digits above key d first later h1 here
          (AllStored-lookup split groups digits others above later key h2 more))

  -- Stored children at digits pass the check of their parent.
  pub AllStored-check_children :
      (prefix : Text) (above : List Text) (ds : Dict Descriptor) (held : Children)
      → length prefix < 64
      → AllStored above ds held
      → All (λ key. is_digit key ≡ true) (keys ds)
      → check_children reachable prefix ds ≡ ok tt
  unfolding check_children check_child Stored
  AllStored-check_children prefix above [] held small h a = refl
  AllStored-check_children prefix above (entry ∷ ds) no_children small h a = absurd h
  AllStored-check_children prefix above ((k, d) ∷ ds) (child key plan rest) small h a =
      let short : ltb (length prefix) 64 ≡ true = ground arith in
      rw (a.0, short, h.1.0) (AllStored-check_children prefix above ds rest small h.1.1.1 a.1)
