-- ===== src/Catalog/Digits.antt =====
-- worker/catalog.go: the digits of a name's digest, of which the tree's branches are made.
use nix_ci_worker.Base.{
  ℕ, zero, suc, ◌+◌, ◌<◌, ◌≡◌, refl, sym, ap, ◌∙◌, subst, Text, Dict, [], ◌∷◌, ◌++◌, Bool, true,
  ◌&&◌, if◌then◌else◌, length, ◌==◌, ==_iff, all, any, codes, text_eq, keys, insert, sorted_keys,
  contains-sorted_keys, has_prefix, has_prefix_lem, drop_prefix, All, All_contains, All-members,
  All-keys, All-insert_entry, arith, and_parts,
}
use nix_ci_worker.Snapshot.Files.{hex_byte, digest_pattern}
use nix_ci_worker.Catalog.{Records}
use nix_ci_worker.Catalog.Partition.{Encoding, slice, nibble, group}
use nix_ci_worker.Catalog.Partition.Groups.{at}
use nix_ci_worker.Catalog.View.{Reading, name_hash}

-- One hexadecimal digit.
abbrev pub is_digit : Text → Bool
is_digit key = length key == 1 && any (λ c. text_eq key (c ∷ [])) (codes "0123456789abcdef")

-- The test of one byte, and of the string that holds it.
is_digit_lem : (c : ℕ) → hex_byte c ≡ true → is_digit (c ∷ []) ≡ true
unfolding text_eq
is_digit_lem c h = ground arith

slice-is_digit :
    (depth : ℕ) (s : Text)
    → all hex_byte s ≡ true
    → depth < length s
    → is_digit (slice depth 1 s) ≡ true
unfolding slice
slice-is_digit depth [] h small = absurd (omega arith)
slice-is_digit zero (c ∷ s) h small = is_digit_lem c (and_parts (hex_byte c) (all hex_byte s) h).0
slice-is_digit (suc depth) (c ∷ s) h small =
    slice-is_digit depth s (and_parts (hex_byte c) (all hex_byte s) h).1 (omega arith)

slice_skip : (depth : ℕ) (s : Text) → slice (7 + depth) 1 (codes "sha256:" ++ s) ≡ slice depth 1 s
unfolding slice
slice_skip depth s =
    subst (λ (n : ℕ). slice n 1 (codes "sha256:" ++ s) ≡ slice depth 1 s)
      {x = suc (suc (suc (suc (suc (suc (suc depth))))))} (omega arith) refl

-- What SHA-256 in hexadecimal gives.
abbrev pub AreDigests : (Text → Text) → Type 0
AreDigests content_digest = (name : Text) → digest_pattern (content_digest name) ≡ true

module _ (reading : Reading) (digests : AreDigests reading.content_digest) where
  pub name_hash_parts :
      (name : Text)
      → (reading.content_digest name ≡ codes "sha256:" ++ name_hash reading name)
        × (length (name_hash reading name) ≡ 64)
        × (all hex_byte (name_hash reading name) ≡ true)
  unfolding digest_pattern name_hash
  name_hash_parts name =
      let s : Text = reading.content_digest name in
      let tail : Text = drop_prefix s (codes "sha256:") in
      let (start, hex) =
        and_parts (has_prefix s (codes "sha256:") && length tail == 64) (all hex_byte tail)
          (digests name) in
      let (first, long) = and_parts (has_prefix s (codes "sha256:")) (length tail == 64) start in
      let same : (if has_prefix s (codes "sha256:") then tail else s) ≡ tail = rw first refl in
      rw same (has_prefix_lem s (codes "sha256:") first, (==_iff (length tail) 64).0 long, hex)

  module _ (e : Encoding) (one : e.content_digest ≡ reading.content_digest) where
    -- The digit that a branch is chosen by is one of the hash.
    pub nibble-name_hash :
        (depth : ℕ) (name : Text) → nibble e depth name ≡ slice depth 1 (name_hash reading name)
    unfolding nibble
    nibble-name_hash depth name =
        ap (λ (f : Text → Text). slice (7 + depth) 1 (f name)) one
        ∙ ap (slice (7 + depth) 1) (name_hash_parts name).0
        ∙ slice_skip depth (name_hash reading name)

    pub nibble-is_digit :
        (depth : ℕ) (name : Text) → depth < 64 → is_digit (nibble e depth name) ≡ true
    nibble-is_digit depth name small =
        let (whole, long, hex) = name_hash_parts name in
        subst (λ k. is_digit k ≡ true) (sym (nibble-name_hash depth name))
          (slice-is_digit depth (name_hash reading name) hex (omega (arith, long)))

    group-keys :
        (depth : ℕ) (records : Records) (groups : Dict Records)
        → depth < 64
        → All (λ g. is_digit g.0 ≡ true) groups
        → All (λ g. is_digit g.0 ≡ true) (group e depth records groups)
    unfolding group
    group-keys depth [] groups small a = a
    group-keys depth ((name, r) ∷ records) groups small a =
        let key = nibble e depth name in
        group-keys depth records (insert key (insert name r (at key groups)) groups) small (
          All-insert_entry (λ k m. is_digit k ≡ true) groups key (insert name r (at key groups))
            (nibble-is_digit depth name small) a)

    -- The children of a branch are at digits.
    pub sorted_keys-is_digit :
        (depth : ℕ) (records : Records)
        → depth < 64
        → All (λ key. is_digit key ≡ true) (sorted_keys (group e depth records []))
    sorted_keys-is_digit depth records small =
        All-members (λ key. is_digit key ≡ true) (sorted_keys (group e depth records []))
          (λ key k.
            All_contains (λ key. is_digit key ≡ true) (keys (group e depth records [])) key
              (All-keys (λ key. is_digit key ≡ true) (group e depth records [])
                (group-keys depth records [] small tt))
              (sym (contains-sorted_keys (group e depth records []) key) ∙ k))
