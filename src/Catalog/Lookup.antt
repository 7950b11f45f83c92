-- ===== src/Catalog/Lookup.antt =====
-- worker/catalog.go: openCatalog, a lookup in the tree, and the load of all of it.
use nix_ci_worker.Base.{
  ℕ, zero, suc, ◌==◌, Text, Dict, List, [], ◌∷◌, ◌++◌, Option, none, some, Bool, true, false, not,
  ◌&&◌, ◌||◌, if◌then◌else◌, length, codes, text_eq, get_or, lookup, insert, sorted_keys, Result,
  ok, err, ◌>>=◌, ◌>>◌, guard,
}
use nix_ci_worker.Base.Int.{pos, lt_ℤ, eq_ℤ}
use nix_ci_worker.Snapshot.Files.{Descriptor, SnapshotFile, digest_pattern, blob_limit}
use nix_ci_worker.Snapshot.Narinfo.{field}
use nix_ci_worker.Snapshot.Records.{Snapshot, new_snapshot, fields_of, validate_records}
use nix_ci_worker.Catalog.{CatalogRecord, CatalogNode, Records, no_descriptor, no_file}
use nix_ci_worker.Catalog.Partition.{slice}
use nix_ci_worker.Catalog.View.{
  catalog_root_limit, CatalogRoot, Layer, Reading, View, same_blob, reachable_blob, name_hash,
  read_catalog_blob, children_of, records_of, node,
}

abbrev pub same_location : SnapshotFile → SnapshotFile → Bool
same_location old file =
    text_eq old.blob.digest file.blob.digest
    && eq_ℤ old.offset file.offset
    && eq_ℤ old.size file.size
    && text_eq old.digest file.digest

-- addFile
unfoldable pub add_file : Text → SnapshotFile → Snapshot → Result Snapshot
unfolding lookup insert text_eq
add_file name file s = do
  guard (elim (lookup name s.files) [ none ↦ true | some old ↦ same_location old file ])
      "conflicting catalog archive"
  ok (record s { files = insert name file s.files })

unfoldable pub add_own_file : Text → CatalogRecord → Snapshot → Result Snapshot
unfolding add_file
add_own_file name r s = elim r.file [ none ↦ ok s | some file ↦ add_file name file s ]

-- The record's narinfo and its archive, which the node's check has seen.
unfoldable pub add_narinfo : Text → CatalogRecord → Snapshot → Result Snapshot
unfolding text_eq fields_of add_file insert
add_narinfo name r s = if text_eq r.narinfo [] then ok s else do
  t ←
      add_file (codes "cache/" ++ field (fields_of r.narinfo) (codes "URL"))
        (elim r.archive [ none ↦ no_file | some archive ↦ archive ]) s
  ok (record t { narinfos = insert name r.narinfo t.narinfos })

unfoldable pub add_references : Text → CatalogRecord → Snapshot → Snapshot
unfolding insert
add_references name r s = elim r.references [
  | none ↦ s
  | some refs ↦ record s { upstream = insert name refs s.upstream }
]

-- addCatalogRecords
unfoldable pub add_catalog_records : Records → Snapshot → Result Snapshot
unfolding add_own_file add_narinfo add_references
add_catalog_records [] s = ok s
add_catalog_records ((name, r) ∷ records) s = do
  filed ← add_own_file name r s
  known ← add_narinfo name r filed
  add_catalog_records records (add_references name r known)

-- The layers of the manifest, and the root that they name.
unfoldable pub open_layers :
    List Layer → Dict Descriptor × Option Descriptor → Result (Dict Descriptor × Option Descriptor)
unfolding digest_pattern lookup insert text_eq
open_layers [] found = ok found
open_layers (layer ∷ layers) (reachable, root) =
    let d = layer.descriptor in
    let files = text_eq layer.title (codes "files") in
    do
      guard (digest_pattern d.digest && lt_ℤ (pos 0) d.size && lt_ℤ d.size (pos blob_limit))
          "invalid catalog blob descriptor"
      guard (elim (lookup d.digest reachable) [ none ↦ true | some prior ↦ same_blob d prior ])
          "conflicting snapshot blob descriptors"
      guard (not files || elim root [ none ↦ true | some other ↦ false ]) "duplicate files catalog"
      open_layers layers (insert d.digest d reachable, if files then some d else root)

abbrev pub opened : CatalogRoot → Dict Descriptor → View
opened root reachable = record {
  root = root;
  reachable = reachable;
  nodes = [];
  prefixes = [];
  blobs = [];
}

abbrev pub catalog_limit : ℕ
catalog_limit = 268_435_456

abbrev pub snapshot_format : Text
snapshot_format = codes "infra-ci-snapshot"

abbrev catalog_root_media_type : Text
catalog_root_media_type = codes "application/vnd.awked.nix-ci.catalog.v3+age"

module _ (reading : Reading) where
  unfoldable pub open_root : Dict Descriptor → Descriptor → Result View
  unfolding text_eq read_catalog_blob digest_pattern reachable_blob insert
  open_root reachable root = do
    guard (text_eq root.media_type catalog_root_media_type) "unsupported catalog media type"
    raw ← read_catalog_blob reading root catalog_root_limit
    decoded ← reading.decode_root raw
    guard (text_eq decoded.format snapshot_format && decoded.version == 3)
        "unsupported catalog format"
    guard (digest_pattern decoded.recipients) "invalid catalog recipient fingerprint"
    (let view = opened decoded reachable in
        reachable_blob reachable decoded.index
        >> reachable_blob reachable decoded.writer
        >> reachable_blob reachable decoded.metadata
        >> ok (record view { blobs = (reading.content_digest raw, root) ∷ [] }))

  -- openCatalog
  unfoldable pub open_catalog : List Layer → Result View
  unfolding open_layers open_root
  open_catalog layers = open_layers layers ([], none) >>= λ found. elim found.1 [
    | none ↦ err "missing files catalog"
    | some root ↦ open_root found.0 root
  ]

  -- The loop of a lookup from a node, for so many nodes.
  unfoldable pub lookup_from :
      ℕ → View → Text → Descriptor → Text → Snapshot → Result (Snapshot × View)
  unfolding node name_hash add_catalog_records lookup slice
  lookup_from zero v name d prefix s = err "out of fuel"
  lookup_from (suc fuel) v name d prefix s =
      let key = slice (length prefix) 1 (name_hash reading name) in
      node reading v d prefix true >>= λ found.
      let down = λ (next : Descriptor). lookup_from fuel found.1 name next (prefix ++ key) s in
      if length (children_of reading found.0) == 0
      then (add_catalog_records (records_of reading found.0) s >>= λ t. ok (t, found.1))
      else elim (lookup key (children_of reading found.0)) [
        | none ↦ ok (s, found.1)
        | some next ↦ down next
      ]

  -- lookup; a prefix has at most 64 digits.
  unfoldable pub lookup_name : View → Text → Result (Snapshot × View)
  unfolding lookup_from
  lookup_name v name = lookup_from 66 v name v.root.index [] new_snapshot

  -- A node of a level, with its prefix.
  pub record Branch : Type 0 where
    pub descriptor : Descriptor
    pub prefix : Text
    pub consumer : Bool

  -- The nodes of one level.
  unfoldable pub load_nodes : View → List Branch → Result (List CatalogNode × View)
  unfolding node
  load_nodes v [] = ok ([], v)
  load_nodes v (b ∷ level) = do
    found ← node reading v b.descriptor b.prefix b.consumer
    rest ← load_nodes found.1 level
    ok (found.0 ∷ rest.0, rest.1)

  -- The children of a node, in order.
  unfoldable pub next_branches : Branch → Dict Descriptor → List Text → List Branch
  unfolding lookup
  next_branches b children [] = []
  next_branches b children (nibble ∷ digits) =
      record {
        descriptor = get_or children nibble no_descriptor;
        prefix = b.prefix ++ nibble;
        consumer = b.consumer;
      }
      ∷ next_branches b children digits

  -- The records of a level, and the level below.
  unfoldable pub add_level :
      List Branch → List CatalogNode → Snapshot → Result (Snapshot × List Branch)
  unfolding add_catalog_records next_branches sorted_keys
  add_level (b ∷ level) (n ∷ nodes) s = do
    t ← add_catalog_records (records_of reading n) s
    rest ← add_level level nodes t
    ok (
      rest.0,
      next_branches b (children_of reading n) (sorted_keys (children_of reading n)) ++ rest.1,
    )
  add_level [] nodes s = ok (s, [])
  add_level (b ∷ level) [] s = ok (s, [])

  unfoldable pub load_levels : ℕ → View → List Branch → Snapshot → Result (Snapshot × View)
  unfolding load_nodes add_level
  load_levels fuel v [] s = ok (s, v)
  load_levels zero v (b ∷ level) s = err "out of fuel"
  load_levels (suc fuel) v (b ∷ level) s = do
    nodes ← load_nodes v (b ∷ level)
    added ← add_level (b ∷ level) nodes.0 s
    load_levels fuel nodes.1 added.1 added.0

  -- loadAll
  unfoldable pub load_all : View → Result (Snapshot × View)
  unfolding load_levels read_catalog_blob validate_records insert
  load_all v = do
    loaded ←
        load_levels 66 v
          (record { descriptor = v.root.index; prefix = []; consumer = true }
            ∷ record { descriptor = v.root.writer; prefix = []; consumer = false }
            ∷ [])
          new_snapshot
    raw ← read_catalog_blob reading v.root.metadata catalog_limit
    metadata ← reading.decode_metadata raw
    guard metadata "missing catalog metadata"
    validate_records loaded.0
    ok (
      loaded.0,
      record loaded.1 {
        blobs = insert (reading.content_digest raw) v.root.metadata loaded.1.blobs;
      },
    )
