-- ===== src/Catalog/Partition/Errors.antt =====
-- worker/catalog.go: why partitionCatalog fails.
use nix_ci_worker.Base.{
  ℕ, zero, suc, ◌-◌, ◌≤◌, ◌<◌, ◌≡◌, sym, subst, ◌⊎◌, inl, inr, ◌==◌, ==_iff, Text, Dict, List, [],
  ◌∷◌, String, if◌then◌else◌, leb, length, sorted_keys, All, All-map, Result, ok, err, Result-cases,
  arith, Bool-cases,
}
use nix_ci_worker.Catalog.{Records}
use nix_ci_worker.Catalog.Partition.{
  Partition, Encoding, nibble, group, partition_groups, leaf_node, partition_from,
  partition_catalog,
}
use nix_ci_worker.Catalog.Partition.Groups.{at, Exceeds, split_at_depth}
use nix_ci_worker.Catalog.Partition.Placed.{Entry, at-Grouped, group-Grouped}

ok≢err {ℓ} : {V : Type ℓ} (v : V) (m : String) → ok v ≡ err m → ⊥
ok≢err v m h = cc

-- A group whose records could not be split.
partition_groups_err :
    (split : Records → Result Partition) (groups : Dict Records) (digits : List Text) (m : String)
    → partition_groups split groups digits ≡ err m
    → (key : Text) × (message : String) × (split (at key groups) ≡ err message)
unfolding partition_groups
partition_groups_err split groups [] m h = absurd (ok≢err _ m h)
partition_groups_err split groups (key ∷ digits) m h = elim (Result-cases (split (at key groups))) [
  | inr (message, e) ↦ (key, message, e)
  | inl (plan, e) ↦ elim (Result-cases (partition_groups split groups digits)) [
    | inr (message, k) ↦ partition_groups_err split groups digits message k
    | inl (rest, k) ↦ absurd (ok≢err _ m (rw (e, k) at h))
  ]
]

module _ (e : Encoding) (limit : ℕ)
    (total : (records : Records) → (raw : Text) × (e.marshal (leaf_node records) ≡ ok raw))
    (P : Entry → Type 0) where
  -- The digits of an entry down to a depth.
  abbrev pub Digits : (ℕ → Text) → ℕ → Entry → Type 0
  Digits digits depth entry = (d : ℕ) → d < depth → nibble e d entry.0 ≡ digits d

  abbrev pub with_digit : (ℕ → Text) → ℕ → Text → ℕ → Text
  with_digit digits depth key d = if d == depth then key else digits d

  one_more :
      (digits : ℕ → Text) (key : Text) (entry : Entry) (left : ℕ)
      → suc left ≤ 64
      → nibble e (64 - suc left) entry.0 ≡ key
      → Digits digits (64 - suc left) entry
      → Digits (with_digit digits (64 - suc left) key) (64 - left) entry
  one_more digits key entry left small here above d h = elim (Bool-cases (d == 64 - suc left)) [
    | inl same ↦
        rw same (
          subst (λ (n : ℕ). nibble e n entry.0 ≡ key) (sym ((==_iff d (64 - suc left)).0 same))
            here)
    | inr other ↦ rw other (above d (ground (arith, other, h, small)))
  ]

  -- Records that do not fit and cannot be split: one, or some of one digest.
  abbrev pub Unsplit : Type 0
  Unsplit =
      (part : Records) × All P part
      × Exceeds e limit part
      × ((length part ≡ 1) ⊎ ((digits : ℕ → Text) × All (Digits digits 64) part))

  partition_from_err :
      (left : ℕ) (digits : ℕ → Text) (records : Records) (m : String)
      → left ≤ 64
      → All (λ en. Digits digits (64 - left) en × P en) records
      → partition_from e limit left records ≡ err m
      → Unsplit
  unfolding partition_from
  partition_from_err zero digits records m small a h =
      let (raw, read) = total records in
      elim (Bool-cases (leb (length raw) limit)) [
        | inl fits ↦ absurd (ok≢err _ m (rw (read, fits) at h))
        | inr large ↦ (
          records,
          All-map records (λ en x. x.1) a,
          (raw, read, large),
          inr (digits, All-map records (λ en x. x.0) a),
        )
      ]
  partition_from_err (suc left) digits records m small a h =
      let (raw, read) = total records in
      elim (Bool-cases (leb (length raw) limit)) [
        | inl fits ↦ absurd (ok≢err _ m (rw (read, fits) at h))
        | inr large ↦ elim (Bool-cases (length records == 1)) [
          | inl one ↦ (
            records,
            All-map records (λ en x. x.1) a,
            (raw, read, large),
            inl ((==_iff (length records) 1).0 one),
          )
          | inr more ↦ elim (Result-cases (split_at_depth e limit left records)) [
            | inl (children, k) ↦ absurd (ok≢err _ m (rw (read, large, more, k) at h))
            | inr (message, k) ↦
                let depth = 64 - suc left in
                let groups = group e depth records [] in
                let (key, inner, bad) =
                  partition_groups_err (partition_from e limit left) groups (sorted_keys groups)
                    message k in
                let grouped =
                  at-Grouped e depth (λ en. Digits digits depth en × P en) key groups
                    (group-Grouped e depth (λ en. Digits digits depth en × P en) records [] a tt) in
                partition_from_err left (with_digit digits depth key) (at key groups) inner
                  (omega arith)
                  (All-map (at key groups)
                    (λ en x. (one_more digits key en left small x.0 x.1.0, x.1.1)) grouped)
                  bad
          ]
        ]
      ]

  -- partitionCatalog fails only over records that do not fit in a node and cannot be split: a single record, or records of which the digests agree in all 64 digits. They are among the records given.
  pub partition_catalog_err :
      (records : Records) (m : String)
      → All P records
      → partition_catalog e limit records ≡ err m
      → Unsplit
  unfolding partition_catalog
  partition_catalog_err records m a h =
      partition_from_err 64 (λ d. []) records m (omega arith)
        (All-map records (λ en p. (λ d small. absurd (omega arith), p)) a) h
