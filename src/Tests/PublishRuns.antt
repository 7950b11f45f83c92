-- ===== src/Tests/PublishRuns.antt =====
-- worker/catalog.go: the publication of a snapshot of one file.
use nix_ci_worker.Base.{
  ◌≡◌, refl, Text, [], ◌∷◌, none, some, map, codes, length, text_eq, lookup, insert, has_prefix,
  drop_prefix, Result, ok, err,
}
use nix_ci_worker.Base.Int.{pos}
use nix_ci_worker.Snapshot.Files.{Descriptor}
use nix_ci_worker.Snapshot.Records.{Snapshot}
use nix_ci_worker.Catalog.{
  CatalogNode, no_descriptor, hash_then, archive_end, archive_file, valid_cache_path, consumer_file,
  file_records, narinfo_records, upstream_records,
}
use nix_ci_worker.Catalog.Partition.{Encoding, partition_from, partition_catalog}
use nix_ci_worker.Catalog.View.{CatalogRoot}
use nix_ci_worker.Catalog.Publish.{
  Uploads, levels, upload_text, descriptor_for, upload_node, publish_level, publish_levels,
  plan_catalog, publish_catalog,
}
use nix_ci_worker.Catalog.Publish.Complete.{IsComplete, publish_catalog-IsComplete}
use nix_ci_worker.Tests.CatalogRuns.{info, file_at}

-- Texts are their own digests; the text of a node has a byte for each record.
abbrev marshal_node : CatalogNode → Result Text
marshal_node n = elim n.records [ none ↦ ok (b'c' ∷ []) | some rs ↦ ok (map (λ r. b'r') rs) ]

abbrev encoding : Encoding
encoding = record { content_digest = λ raw. raw; marshal = marshal_node }

abbrev send : Text → Result Descriptor
send raw = ok (record no_descriptor { digest = raw; size = pos (length raw) })

abbrev marshal_root : CatalogRoot → Result Text
marshal_root root = ok (b'/' ∷ root.index.digest)

abbrev snapshot : Snapshot
snapshot = record { files = (info, file_at 0) ∷ []; narinfos = []; upstream = [] }

abbrev metadata : Result Text
metadata = ok (codes "metadata")

abbrev done : Result (Descriptor × Uploads)
done = publish_catalog encoding send metadata marshal_root (codes "key") [] [] snapshot

abbrev outcome : Result (Descriptor × Uploads) → Descriptor × Uploads
outcome (ok x) = x
outcome (err message) = (
  no_descriptor,
  record { uploads = []; catalog_blobs = []; reused = []; layers = []; sent = [] },
)

published : done ≡ ok (outcome done)
unfolding publish_catalog plan_catalog file_records narinfo_records upstream_records
    partition_catalog partition_from consumer_file valid_cache_path hash_then archive_file
    archive_end has_prefix drop_prefix text_eq insert lookup levels publish_levels publish_level
    upload_node upload_text descriptor_for
published = refl

publish_catalog-IsComplete_example :
    IsComplete encoding send [] metadata marshal_root
      (codes "key")
      snapshot
      (outcome done).0
      (outcome done).1
publish_catalog-IsComplete_example =
    publish_catalog-IsComplete encoding send [] metadata marshal_root (codes "key") [] snapshot
      (outcome done).0 (outcome done).1 published
