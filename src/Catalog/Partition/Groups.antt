-- ===== src/Catalog/Partition/Groups.antt =====
-- worker/catalog.go: the groups of partitionCatalog hold the records, each at its digit.
use nix_ci_worker.Base.{
  ℕ, suc, ◌-◌, ◌≡◌, refl, sym, ap, ◌∙◌, subst, inl, inr, ◌⊎◌, false≢true, Text, Dict, [], ◌∷◌,
  Option, none, some, true, false, if◌then◌else◌, leb, length, ◌==◌, contains, text_eq, text_eq_iff,
  text_eq_self, get_or, get_or-some, get_or-none, get_or-insert, has, keys, lookup, lookup-insert,
  lookup-none, insert, insert-IsUnique, sorted_keys, contains-sorted_keys, has-contains, has_entry,
  lookup_entry, IsUnique, All, All-insert, All-lookup, Result, ok, ok_eq, ok_parts, Bool-cases,
  Option-cases,
}
use nix_ci_worker.Catalog.{CatalogRecord, Records, no_descriptor}
use nix_ci_worker.Catalog.Partition.{
  Partition, leaf, branch, Children, Encoding, nibble, group, partition_groups, leaf_node,
  partition_from,
}

step_lookup :
    (n : Text) (r : CatalogRecord) (records : Records) (name : Text) (o : Option CatalogRecord)
    → contains (keys records) n ≡ false
    → (if has records name then lookup name records else if text_eq n name then some r else o)
      ≡ (if has ((n, r) ∷ records) name then lookup name ((n, r) ∷ records) else o)
step_lookup n r records name o u = elim (Bool-cases (text_eq n name)) [
  | inl e ↦
      let gone : has records name ≡ false =
        has-contains records name
        ∙ ap (contains (keys records)) (sym ((text_eq_iff n name).0 e))
        ∙ u in
      rw (has_entry n name r records, lookup_entry n name r records, e, gone) refl
  | inr e ↦ rw (has_entry n name r records, lookup_entry n name r records, e) refl
]

-- The records of a group.
abbrev pub at : Text → Dict Records → Records
at key groups = get_or groups key []

abbrev pub HasUnique : Dict Records → Type 0
HasUnique groups = All (λ entry. IsUnique (keys entry.1)) groups

pub at-IsUnique :
    (key : Text) (groups : Dict Records) → HasUnique groups → IsUnique (keys (at key groups))
at-IsUnique key groups u = elim (Option-cases (lookup key groups)) [
  | inl e ↦ subst (λ (m : Records). IsUnique (keys m)) (sym (get_or-none groups key [] e)) tt
  | inr (records, e) ↦
      subst (λ (m : Records). IsUnique (keys m)) (sym (get_or-some groups key records [] e))
        (All-lookup (λ r. IsUnique (keys r)) groups key records u e)
]

module _ (e : Encoding) (depth : ℕ) where
  put-IsUnique :
      (name : Text) (r : CatalogRecord) (key : Text) (groups : Dict Records)
      → HasUnique groups
      → HasUnique (insert key (insert name r (at key groups)) groups)
  put-IsUnique name r key groups u =
      All-insert (λ m. IsUnique (keys m)) groups key (insert name r (at key groups))
        (insert-IsUnique name r (at key groups) (at-IsUnique key groups u)) u

  pub group-IsUnique :
      (records : Records) (groups : Dict Records)
      → HasUnique groups
      → HasUnique (group e depth records groups)
  unfolding group
  group-IsUnique [] groups u = u
  group-IsUnique ((name, r) ∷ records) groups u =
      group-IsUnique records _ (put-IsUnique name r (nibble e depth name) groups u)

  -- A record put into its group.
  lookup-put :
      (name : Text) (r : CatalogRecord) (key : Text) (groups : Dict Records) (other : Text)
      → (text_eq name other ≡ true → nibble e depth other ≡ key)
      → lookup other (at (nibble e depth other) (insert key (insert name r (at key groups)) groups))
        ≡ (if text_eq name other then some r else lookup other (at (nibble e depth other) groups))
  lookup-put name r key groups other h = elim (Bool-cases (text_eq key (nibble e depth other))) [
    | inl same ↦
        let here = (text_eq_iff key (nibble e depth other)).0 same in
        rw
          (get_or-insert key (nibble e depth other) (insert name r (at key groups)) [] groups, same)
          (lookup-insert name other r (at key groups)
            ∙ ap (λ k. if text_eq name other then some r else lookup other (at k groups)) here)
    | inr differs ↦
        rw
          (
            get_or-insert key (nibble e depth other) (insert name r (at key groups)) [] groups,
            differs,
          )
          (away differs (Bool-cases (text_eq name other)))
  ]
    where
      away :
          text_eq key (nibble e depth other) ≡ false
          → (text_eq name other ≡ true) ⊎ (text_eq name other ≡ false)
          → lookup other (at (nibble e depth other) groups) ≡ (
              if text_eq name other
              then some r
              else lookup other (at (nibble e depth other) groups))
      away differs (inl k) =
          absurd (false≢true (sym differs ∙ ap (text_eq key) (h k) ∙ text_eq_self key))
      away differs (inr k) = rw k refl

  lookup-group :
      (records : Records) (groups : Dict Records) (name : Text)
      → IsUnique (keys records)
      → lookup name (at (nibble e depth name) (group e depth records groups)) ≡ (
          if has records name
          then lookup name records
          else lookup name (at (nibble e depth name) groups))
  unfolding group lookup
  lookup-group [] groups name u = refl
  lookup-group ((n, r) ∷ records) groups name u =
      lookup-group records _ name u.1
      ∙ ap (λ o. if has records name then lookup name records else o)
          (lookup-put n r (nibble e depth n) groups name
            (λ k. ap (nibble e depth) (sym ((text_eq_iff n name).0 k))))
      ∙ step_lookup n r records name _ u.0

pub lookup_empty : (name : Text) → ◌≡◌ {A = Option CatalogRecord} (lookup name []) none
unfolding lookup
lookup_empty name = refl

-- No digit leads to a record that is nowhere.
pub lookup-at :
    (key name : Text) (groups : Dict Records)
    → (if contains (sorted_keys groups) key then lookup name (at key groups) else none)
      ≡ lookup name (at key groups)
lookup-at key name groups = elim (Bool-cases (contains (sorted_keys groups) key)) [
  | inl e ↦ rw e refl
  | inr e ↦
      let gone = lookup-none key groups (sym (contains-sorted_keys groups key) ∙ e) in
      rw (e, get_or-none groups key [] gone) (sym (lookup_empty name))
]

found_or_none :
    (o : Option CatalogRecord) → (if elim o [ none ↦ false | some r ↦ true ] then o else none) ≡ o
found_or_none none = refl
found_or_none (some r) = refl

-- The groups of all records answer for them.
pub lookup-groups :
    (e : Encoding) (depth : ℕ) (records : Records) (name : Text)
    → IsUnique (keys records)
    → lookup name (at (nibble e depth name) (group e depth records [])) ≡ lookup name records
unfolding lookup
lookup-groups e depth records name u =
    lookup-group e depth records [] name u ∙ found_or_none (lookup name records)

-- A node whose text fits.
abbrev pub Fits : Encoding → ℕ → Records → Type 0
Fits e limit records =
    (raw : Text) × (e.marshal (leaf_node records) ≡ ok raw) × (leb (length raw) limit ≡ true)

-- A node whose text does not.
abbrev pub Exceeds : Encoding → ℕ → Records → Type 0
Exceeds e limit records =
    (raw : Text) × (e.marshal (leaf_node records) ≡ ok raw) × (leb (length raw) limit ≡ false)

-- What partition_from makes: a leaf that fits, or a branch over the groups.
pub partition_last :
    (e : Encoding) (limit : ℕ) (records : Records) (plan : Partition)
    → partition_from e limit 0 records ≡ ok plan
    → Fits e limit records × (plan ≡ leaf no_descriptor limit records)
unfolding partition_from
partition_last e limit records plan h =
    let (raw, read, rest) = ok_parts (e.marshal (leaf_node records)) _ h in
    elim (Bool-cases (leb (length raw) limit)) [
      | inl fits ↦ ((raw, read, fits), sym (ok_eq _ plan (rw fits at rest)))
      | inr large ↦ let bad = rw large at rest in cc
    ]

abbrev pub split_at_depth : Encoding → ℕ → ℕ → Records → Result Children
split_at_depth e limit left records =
    partition_groups (partition_from e limit left) (group e (64 - suc left) records [])
      (sorted_keys (group e (64 - suc left) records []))

pub partition_cases :
    (e : Encoding) (limit left : ℕ) (records : Records) (plan : Partition)
    → partition_from e limit (suc left) records ≡ ok plan
    → (Fits e limit records × (plan ≡ leaf no_descriptor limit records))
      ⊎ (Exceeds e limit records
          × (children : Children) × (split_at_depth e limit left records ≡ ok children)
          × (plan ≡ branch no_descriptor limit children))
unfolding partition_from
partition_cases e limit left records plan h =
    let (raw, read, rest) = ok_parts (e.marshal (leaf_node records)) _ h in
    elim (Bool-cases (leb (length raw) limit)) [
      | inl fits ↦ inl ((raw, read, fits), sym (ok_eq _ plan (rw fits at rest)))
      | inr large ↦
          let go = rw large at rest in
          elim (Bool-cases (length records == 1)) [
            | inl one ↦ let bad = rw one at go in cc
            | inr more ↦
                let (children, made, last) =
                  ok_parts (split_at_depth e limit left records)
                    (λ c. ok (branch no_descriptor limit c)) (rw more at go) in
                inr ((raw, read, large), children, made, sym (ok_eq _ plan last))
          ]
    ]
