-- ===== src/Catalog/Publish.antt =====
-- worker/catalog.go: publishCatalog, which uploads the nodes of a snapshot's trees from the leaves up.
pub mod Upload
pub mod Complete
pub mod Sent
use nix_ci_worker.Base.{
  ℕ, zero, suc, ◌+◌, Text, Dict, List, [], ◌∷◌, Option, none, some, Bool, true, false, String,
  if◌then◌else◌, leb, length, text_eq, lookup, insert, Result, ok, err, ◌>>=◌, ◌>>◌, guard,
}
use nix_ci_worker.Snapshot.Files.{Descriptor}
use nix_ci_worker.Snapshot.Records.{Snapshot}
use nix_ci_worker.Catalog.{CatalogNode, Records, file_records, narinfo_records, upstream_records}
use nix_ci_worker.Catalog.Partition.{
  Partition, leaf, branch, Children, no_children, child, Encoding, leaf_node, partition_catalog,
}
use nix_ci_worker.Catalog.View.{
  catalog_node_limit, catalog_writer_node_limit, catalog_root_limit, CatalogRoot,
}
use nix_ci_worker.Catalog.Lookup.{catalog_limit, snapshot_format}

-- The descriptors of uploads that were started, the blobs of the last publication, those that are used again, the layers, and what was sent, the last first.
pub record Uploads : Type 0 where
  pub uploads : Dict Descriptor
  pub catalog_blobs : Dict Descriptor
  pub reused : Dict Descriptor
  pub layers : Dict Descriptor
  pub sent : List (Text × Descriptor)

-- The descriptor of a partition.
abbrev pub descriptor_of : Partition → Descriptor
descriptor_of (leaf d limit records) = d
descriptor_of (branch d limit below) = d

-- node.Children
abbrev pub descriptors_of : Children → Dict Descriptor
descriptors_of no_children = []
descriptors_of (child nibble plan rest) = (nibble, descriptor_of plan) ∷ descriptors_of rest

abbrev pub higher : ℕ → ℕ → ℕ
higher a b = if leb a b then b else a

-- The levels of a tree.
unfoldable mutual
  pub levels : Partition → ℕ
  levels (leaf d limit records) = 1
  levels (branch d limit children) = suc (levels_below children)

  pub levels_below : Children → ℕ
  levels_below no_children = 0
  levels_below (child nibble plan rest) =
      let here = levels plan in
      let others = levels_below rest in if leb others here then here else others

-- The upload of a text: it is sent unless a blob has it already. `send` compresses, encrypts and uploads it.
module _ (content_digest : Text → Text) (send : Text → Result Descriptor) where
  -- send(), of an upload that may have been started, with the log of what was sent.
  unfoldable pub descriptor_for : Text → Uploads → Result (Descriptor × List (Text × Descriptor))
  unfolding lookup
  descriptor_for raw u = elim (lookup (content_digest raw) u.uploads) [
    | some started ↦ ok (started, u.sent)
    | none ↦ elim (lookup (content_digest raw) u.catalog_blobs) [
      | some known ↦ ok (known, u.sent)
      | none ↦ send raw >>= λ d. ok (d, (raw, d) ∷ u.sent)
    ]
  ]

  unfoldable pub upload_text : Text → ℕ → Uploads → Result (Descriptor × Uploads)
  unfolding descriptor_for insert
  upload_text raw limit u = do
    guard (leb (length raw) limit) "catalog exceeds limit"
    (d, log) ← descriptor_for raw u
    ok (
      d,
      record u {
        uploads = insert (content_digest raw) d u.uploads;
        reused = insert (content_digest raw) d u.reused;
        layers = insert d.digest d u.layers;
        sent = log;
      },
    )

module _ (e : Encoding) (send : Text → Result Descriptor) where
  -- A node whose children have their descriptors.
  unfoldable pub upload_node : CatalogNode → ℕ → Uploads → Result (Descriptor × Uploads)
  unfolding upload_text
  upload_node n limit u = e.marshal n >>= λ raw. upload_text e.content_digest send raw limit u

  -- The nodes of one level, given the level as a depth below the partition.
  unfoldable mutual
    pub publish_level : ℕ → Partition → Uploads → Result (Partition × Uploads)
    publish_level zero (leaf d limit records) u =
        upload_node (leaf_node records) limit u >>= λ done. ok (leaf done.0 limit records, done.1)
    publish_level zero (branch d limit children) u =
        upload_node (record { records = none; children = some (descriptors_of children) }) limit u
        >>= λ done. ok (branch done.0 limit children, done.1)
    publish_level (suc depth) (leaf d limit records) u = ok (leaf d limit records, u)
    publish_level (suc depth) (branch d limit children) u =
        publish_children depth children u >>= λ done. ok (branch d limit done.0, done.1)

    pub publish_children : ℕ → Children → Uploads → Result (Children × Uploads)
    publish_children depth no_children u = ok (no_children, u)
    publish_children depth (child nibble plan rest) u = publish_level depth plan u >>= λ first.
        publish_children depth rest first.1 >>= λ others.
        ok (child nibble first.0 others.0, others.1)

  -- The levels of both trees, the deepest first.
  unfoldable pub publish_levels :
      ℕ → Partition × Partition → Uploads → Result ((Partition × Partition) × Uploads)
  unfolding publish_level
  publish_levels zero plans u = ok (plans, u)
  publish_levels (suc depth) (consumer, writer) u = do
    upper ← publish_level depth consumer u
    lower ← publish_level depth writer upper.1
    publish_levels depth (upper.0, lower.0) lower.1

  -- The maps of records, partitioned.
  unfoldable pub plan_catalog : Snapshot → Result (Partition × Partition)
  unfolding file_records narinfo_records upstream_records partition_catalog
  plan_catalog s = do
    records ← narinfo_records s.files s.narinfos (file_records s.files ([], [])).0
    consumer ← partition_catalog e catalog_node_limit records
    writer ←
        partition_catalog e catalog_writer_node_limit
          (upstream_records s.upstream (file_records s.files ([], [])).1)
    ok (consumer, writer)

  -- publishCatalog, given the texts of the metadata and of a root, the recipients' fingerprint and the blobs that were published for the same recipients.
  unfoldable pub publish_catalog :
      Result Text
      → (CatalogRoot → Result Text)
      → Text
      → Dict Descriptor
      → Dict Descriptor
      → Snapshot
      → Result (Descriptor × Uploads)
  unfolding plan_catalog levels publish_levels upload_text
  publish_catalog metadata marshal_root recipients blobs layers s = do
    plans ← plan_catalog s
    text ← metadata
    guard (leb (length text) catalog_limit) "catalog exceeds limit"
    done ←
        publish_levels (higher (levels plans.0) (levels plans.1)) plans
          (record { uploads = []; catalog_blobs = blobs; reused = []; layers = layers; sent = [] })
    meta ← upload_text e.content_digest send text catalog_limit done.1
    raw ← marshal_root (record {
      format = snapshot_format;
      version = 3;
      index = descriptor_of done.0.0;
      writer = descriptor_of done.0.1;
      metadata = meta.0;
      recipients = recipients;
    })
    upload_text e.content_digest send raw catalog_root_limit meta.1

-- maps.Copy
unfoldable pub copy : Dict Descriptor → Dict Descriptor → Dict Descriptor
unfolding insert
copy [] blobs = blobs
copy ((hash, d) ∷ previous) blobs = copy previous (insert hash d blobs)

-- reuseCatalogs: the blobs and the fingerprint of their recipients, of the snapshot and of an earlier one.
unfoldable pub reuse_catalogs :
    Dict Descriptor × Text → Dict Descriptor × Text → Dict Descriptor × Text
unfolding text_eq copy
reuse_catalogs (blobs, recipients) (previous, earlier) =
    if text_eq earlier []
    then (blobs, recipients)
    else if text_eq recipients []
    then (copy previous blobs, earlier)
    else if text_eq recipients earlier
    then (copy previous blobs, earlier)
    else (blobs, recipients)
