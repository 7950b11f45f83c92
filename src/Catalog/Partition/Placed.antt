-- ===== src/Catalog/Partition/Placed.antt =====
-- worker/catalog.go: what all records have, the records of every group have, and their digit.
use nix_ci_worker.Base.{
  ℕ, ◌≡◌, refl, sym, subst, inl, inr, Text, Dict, [], ◌∷◌, ◌++◌, true, get_or-some, get_or-none,
  has_prefix, length, lookup, insert, All, All-entries, All-insert_entry, Option-cases, arith,
}
use nix_ci_worker.Catalog.{CatalogRecord, Records}
use nix_ci_worker.Catalog.Partition.{Encoding, slice, nibble, group}
use nix_ci_worker.Catalog.Partition.Groups.{at}

abbrev pub Entry : Type 0
Entry = Text × CatalogRecord

module _ (e : Encoding) (depth : ℕ) (P : Entry → Type 0) where
  -- An entry of the group of a digit.
  abbrev pub Grouped : Text → Entry → Type 0
  Grouped key entry = (nibble e depth entry.0 ≡ key) × P entry

  abbrev pub AllGrouped : Dict Records → Type 0
  AllGrouped groups = All (λ g. All (Grouped g.0) g.1) groups

  pub at-Grouped :
      (key : Text) (groups : Dict Records) → AllGrouped groups → All (Grouped key) (at key groups)
  at-Grouped key groups a = elim (Option-cases (lookup key groups)) [
    | inl h ↦ subst (λ (m : Records). All (Grouped key) m) (sym (get_or-none groups key [] h)) tt
    | inr (records, h) ↦
        subst (λ (m : Records). All (Grouped key) m) (sym (get_or-some groups key records [] h))
          (All-entries (λ k m. All (Grouped k) m) groups key records a h)
  ]

  pub group-Grouped :
      (records : Records) (groups : Dict Records)
      → All P records
      → AllGrouped groups
      → AllGrouped (group e depth records groups)
  unfolding group
  group-Grouped [] groups a b = b
  group-Grouped ((name, r) ∷ records) groups a b =
      let key = nibble e depth name in
      let put =
        All-insert_entry (λ n q. Grouped key (n, q)) (at key groups) name r (refl, a.0)
          (at-Grouped key groups b) in
      group-Grouped records (insert key (insert name r (at key groups)) groups) a.1 (
        All-insert_entry (λ k m. All (Grouped k) m) groups key (insert name r (at key groups)) put
          b)

-- The next byte of a string that begins with a prefix.
pub has_prefix-slice :
    (s prefix : Text)
    → has_prefix s prefix ≡ true
    → has_prefix s (prefix ++ slice (length prefix) 1 s) ≡ true
unfolding has_prefix slice
has_prefix-slice [] [] h = refl
has_prefix-slice (c ∷ s) [] h = ground arith
has_prefix-slice [] (d ∷ prefix) h = h
has_prefix-slice (c ∷ s) (d ∷ prefix) h = ground (arith, has_prefix-slice s prefix)
