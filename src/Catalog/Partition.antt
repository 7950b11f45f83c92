-- ===== src/Catalog/Partition.antt =====
-- worker/catalog.go: partitionCatalog, which splits records into a tree of nodes of bounded size.
pub mod Groups
pub mod Placed
pub mod Errors
use nix_ci_worker.Base.{
  ℕ, zero, suc, ◌+◌, ◌-◌, ◌==◌, Text, Dict, List, [], ◌∷◌, ◌++◌, Option, none, some, Bool, true,
  false, ◌||◌, if◌then◌else◌, leb, length, text_eq, get_or, lookup, insert, sorted_keys, Result, ok,
  err, ◌>>=◌,
}
use nix_ci_worker.Snapshot.Files.{Descriptor}
use nix_ci_worker.Catalog.{CatalogRecord, CatalogNode, Records, no_descriptor}

-- A node with its descriptor, once it is published, and its limit.
mutual
  pub data Partition : Type 0 where
    leaf : Descriptor → ℕ → Records → Partition
    branch : Descriptor → ℕ → Children → Partition

  pub data Children : Type 0 where
    no_children : Children
    child : Text → Partition → Children → Children

-- take(n) of s[i:]
unfoldable pub slice : ℕ → ℕ → Text → Text
slice zero zero s = []
slice zero (suc n) [] = []
slice zero (suc n) (c ∷ s) = c ∷ slice zero n s
slice (suc i) n [] = []
slice (suc i) n (c ∷ s) = slice i n s

-- The two functions of other packages: SHA-256 in hexadecimal, and json.Marshal.
pub record Encoding : Type 0 where
  pub content_digest : Text → Text
  pub marshal : CatalogNode → Result Text

module _ (e : Encoding) where
  -- contentDigest([]byte(name))[7+depth : 8+depth]
  unfoldable pub nibble : ℕ → Text → Text
  unfolding slice
  nibble depth name = slice (7 + depth) 1 (e.content_digest name)

  unfoldable pub group : ℕ → Records → Dict Records → Dict Records
  unfolding nibble lookup insert
  group depth [] groups = groups
  group depth ((name, r) ∷ records) groups =
      let key = nibble depth name in
      group depth records (insert key (insert name r (get_or groups key [])) groups)

-- The children, in the order of their digits.
unfoldable pub partition_groups :
    (Records → Result Partition) → Dict Records → List Text → Result Children
unfolding lookup
partition_groups split groups [] = ok no_children
partition_groups split groups (key ∷ digits) = do
  first ← split (get_or groups key [])
  rest ← partition_groups split groups digits
  ok (child key first rest)

abbrev too_large : Result Partition
too_large = err "cache record exceeds catalog node limit"

abbrev pub leaf_node : Records → CatalogNode
leaf_node records = record { records = some records; children = none }

module _ (e : Encoding) (limit : ℕ) where
  -- At the depth 64 - left.
  unfoldable pub partition_from : ℕ → Records → Result Partition
  unfolding group partition_groups sorted_keys
  partition_from zero records = e.marshal (leaf_node records) >>= λ raw.
      if leb (length raw) limit then ok (leaf no_descriptor limit records) else too_large
  partition_from (suc left) records = e.marshal (leaf_node records) >>= λ raw.
      let groups = group e (64 - suc left) records [] in
      let split = partition_groups (partition_from left) groups (sorted_keys groups) in
      if leb (length raw) limit
      then ok (leaf no_descriptor limit records)
      else if length records == 1
      then too_large
      else split >>= λ children. ok (branch no_descriptor limit children)

  -- partitionCatalog at the depth 0.
  unfoldable pub partition_catalog : Records → Result Partition
  unfolding partition_from
  partition_catalog records = partition_from 64 records

-- `plan.children[nibble]`
unfoldable pub child_at : Text → Children → Option Partition
unfolding text_eq
child_at key no_children = none
child_at key (child k plan rest) = if text_eq k key then some plan else child_at key rest
