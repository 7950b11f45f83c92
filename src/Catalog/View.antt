-- ===== src/Catalog/View.antt =====
-- worker/catalog.go: how a client opens a catalog, reads its nodes and looks a name up.
use nix_ci_worker.Base.{
  ℕ, ◌+◌, ◌*◌, ◌==◌, Text, Dict, List, [], ◌∷◌, Option, none, some, Bool, true, false, not, ◌&&◌,
  ◌||◌, if◌then◌else◌, ltb, all, any, length, codes, text_eq, has_prefix, drop_prefix, trim_prefix,
  lookup, insert, Result, ok, ◌>>=◌, ◌>>◌, guard,
}
use nix_ci_worker.Base.Int.{pos, lt_ℤ, eq_ℤ}
use nix_ci_worker.Snapshot.Files.{Descriptor, SnapshotFile, validate}
use nix_ci_worker.Snapshot.Paths.{valid_store_path}
use nix_ci_worker.Snapshot.Narinfo.{narinfo_fields, narinfo_key, field}
use nix_ci_worker.Snapshot.Records.{elements, is_some}
use nix_ci_worker.Catalog.{CatalogRecord, CatalogNode, Records, consumer_file}

abbrev pub catalog_node_limit : ℕ
catalog_node_limit = 131_072

abbrev pub catalog_writer_node_limit : ℕ
catalog_writer_node_limit = 1_048_576

abbrev pub catalog_root_limit : ℕ
catalog_root_limit = 16_384

-- The members of a root that are read.
pub record CatalogRoot : Type 0 where
  pub format : Text
  pub version : ℕ
  pub index : Descriptor
  pub writer : Descriptor
  pub metadata : Descriptor
  pub recipients : Text

-- A layer of a manifest, with its title among the annotations, empty if it has none.
pub record Layer : Type 0 where
  pub descriptor : Descriptor
  pub title : Text

-- Other packages: SHA-256, the decryption and decompression of a blob up to a limit, and json.Unmarshal.
pub record Reading : Type 0 where
  pub content_digest : Text → Text
  pub decrypt : Descriptor → ℕ → Result Text
  pub decode_node : Text → Result CatalogNode
  pub decode_root : Text → Result CatalogRoot
  pub decode_metadata : Text → Result Bool

pub record View : Type 0 where
  pub root : CatalogRoot
  pub reachable : Dict Descriptor
  pub nodes : Dict CatalogNode
  pub prefixes : Dict Text
  pub blobs : Dict Descriptor

-- `v.reachable`: the blobs of the manifest's layers.
abbrev pub Reachable : Type 0
Reachable = Dict Descriptor

abbrev pub eq_bool : Bool → Bool → Bool
eq_bool true b = b
eq_bool false b = not b

abbrev pub same_blob : Descriptor → Descriptor → Bool
same_blob d t = eq_ℤ t.size d.size && text_eq t.media_type d.media_type

-- reachableBlob
unfoldable pub reachable_blob : Reachable → Descriptor → Result (Unit {0})
unfolding text_eq lookup
reachable_blob reachable d =
    guard (elim (lookup d.digest reachable) [ none ↦ false | some target ↦ same_blob d target ])
      "catalog references an unreachable blob"

-- validateFile
unfoldable pub validate_file : Reachable → SnapshotFile → Result (Unit {0})
unfolding validate reachable_blob
validate_file reachable file = validate file >> reachable_blob reachable file.blob

-- The check of one child.
unfoldable pub check_child : Reachable → Text → Text × Descriptor → Result (Unit {0})
unfolding reachable_blob text_eq
check_child reachable prefix (nibble, child) = do
  guard
      (length nibble == 1
        && any (λ c. text_eq nibble (c ∷ [])) (codes "0123456789abcdef")
        && ltb (length prefix) 64)
      "invalid catalog branch"
  reachable_blob reachable child

unfoldable pub check_children : Reachable → Text → Dict Descriptor → Result (Unit {0})
unfolding check_child
check_children reachable prefix [] = ok tt
check_children reachable prefix (entry ∷ children) =
    check_child reachable prefix entry >> check_children reachable prefix children

unfoldable pub check_references : Text → Option (Option (List Text)) → Result (Unit {0})
unfolding valid_store_path
check_references name none = ok tt
check_references name (some refs) = do
  guard (valid_store_path name && is_some refs) "invalid upstream coverage"
  guard (all valid_store_path (elements refs)) "invalid upstream coverage"

-- The check of a location that may be there.
unfoldable pub check_file : Reachable → Option SnapshotFile → Result (Unit {0})
unfolding validate_file
check_file reachable none = ok tt
check_file reachable (some file) = validate_file reachable file

unfoldable pub check_narinfo : Reachable → Text → CatalogRecord → Result (Unit {0})
unfolding text_eq narinfo_fields narinfo_key check_file
check_narinfo reachable name r =
    if text_eq r.narinfo [] then guard (not (is_some r.archive)) "archive without narinfo" else do
      parsed ← narinfo_fields r.narinfo
      guard (text_eq name (narinfo_key (field parsed (codes "StorePath"))) && is_some r.archive)
          "narinfo references an unreachable archive"
      check_file reachable r.archive

module _ (reading : Reading) where
  -- strings.TrimPrefix(contentDigest([]byte(name)), "sha256:")
  unfoldable pub name_hash : Text → Text
  unfolding has_prefix drop_prefix
  name_hash name = trim_prefix (reading.content_digest name) (codes "sha256:")

  -- The check of one record.
  unfoldable pub check_record : Reachable → Text → Bool → Text × CatalogRecord → Result (Unit {0})
  unfolding has_prefix consumer_file text_eq check_references check_file check_narinfo name_hash
  check_record reachable prefix consumer (name, r) = do
    guard (eq_bool (consumer_file name) consumer && has_prefix (name_hash name) prefix)
        "invalid catalog record key"
    guard (is_some r.file || not (text_eq r.narinfo []) || is_some r.references)
        "empty catalog record"
    guard (not (consumer && is_some r.references)) "upstream record in consumer catalog"
    guard (consumer || text_eq r.narinfo [] && not (is_some r.archive)) "narinfo in writer catalog"
    check_references name r.references
    check_file reachable r.file
    check_narinfo reachable name r

  unfoldable pub check_records : Reachable → Text → Bool → Records → Result (Unit {0})
  unfolding check_record
  check_records reachable prefix consumer [] = ok tt
  check_records reachable prefix consumer (entry ∷ records) =
      check_record reachable prefix consumer entry
      >> check_records reachable prefix consumer records

  -- readCatalogBlob
  unfoldable pub read_catalog_blob : Descriptor → ℕ → Result Text
  read_catalog_blob d limit =
      guard (lt_ℤ (pos 0) d.size && not (lt_ℤ (pos (limit + 1024 * 1024)) d.size))
        "catalog ciphertext exceeds limit"
      >> reading.decrypt d limit

  -- The node and, when it is read here, the hash of its text.
  unfoldable pub read_node : View → Descriptor → Bool → Result (CatalogNode × Option Text)
  unfolding lookup read_catalog_blob
  read_node v d consumer = elim (lookup d.digest v.nodes) [
    | some node ↦ ok (node, none)
    | none ↦ do
      raw ← read_catalog_blob d (if consumer then catalog_node_limit else catalog_writer_node_limit)
      node ← reading.decode_node raw
      ok (node, some (reading.content_digest raw))
  ]

  abbrev pub children_of : CatalogNode → Dict Descriptor
  children_of node = elim node.children [ none ↦ [] | some children ↦ children ]

  abbrev pub records_of : CatalogNode → Records
  records_of node = elim node.records [ none ↦ [] | some records ↦ records ]

  -- One of records and children, at a depth that digests have.
  unfoldable pub valid_shape : Text → CatalogNode → Bool
  valid_shape prefix node = not (
      ltb 64 (length prefix)
      || not (is_some node.records) && length (children_of node) == 0
      || is_some node.records && is_some node.children)

  -- Both checks of a node.
  unfoldable pub check_node : Reachable → Text → Bool → CatalogNode → Result (Unit {0})
  unfolding valid_shape check_children check_records
  check_node reachable prefix consumer node = do
    guard (valid_shape prefix node) "invalid catalog tree"
    check_children reachable prefix (children_of node)
    check_records reachable prefix consumer (records_of node)

  -- Whether the blob was a node elsewhere in the tree.
  unfoldable pub same_prefix : View → Descriptor → Text → Bool
  unfolding lookup text_eq
  same_prefix v d prefix = elim (lookup d.digest v.prefixes) [
    | none ↦ true
    | some prior ↦ text_eq prior prefix
  ]

  unfoldable pub remember_node : View → Descriptor → Text → CatalogNode × Option Text → View
  unfolding insert
  remember_node v d prefix (node, hash) = record v {
    nodes = insert d.digest node v.nodes;
    prefixes = insert d.digest prefix v.prefixes;
    blobs = elim hash [ none ↦ v.blobs | some h ↦ insert h d v.blobs ];
  }

  -- node, under the lock of the blob.
  unfoldable pub node : View → Descriptor → Text → Bool → Result (CatalogNode × View)
  unfolding reachable_blob same_prefix read_node check_node remember_node
  node v d prefix consumer = do
    reachable_blob v.reachable d
    guard (same_prefix v d prefix) "catalog node reused at a different prefix"
    found ← read_node v d consumer
    check_node v.reachable prefix consumer found.0
    ok (found.0, remember_node v d prefix found)
