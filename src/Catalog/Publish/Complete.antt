-- ===== src/Catalog/Publish/Complete.antt =====
-- worker/catalog.go: publishCatalog as a whole, from the records of a snapshot to its root.
use nix_ci_worker.Base.{
  ℕ, zero, suc, ◌≤◌, ◌≡◌, refl, Option, sym, ap, none, ◌∙◌, Text, Dict, [], some, leb, length,
  Result, ok, ok_eq, ok_parts, passed, ◌>>=◌, arith,
}
use nix_ci_worker.Snapshot.Files.{Descriptor}
use nix_ci_worker.Snapshot.Records.{Snapshot}
use nix_ci_worker.Catalog.{no_descriptor}
use nix_ci_worker.Catalog.Partition.{
  Partition, leaf, branch, Children, no_children, child, Encoding, leaf_node,
}
use nix_ci_worker.Catalog.View.{CatalogRoot, catalog_root_limit}
use nix_ci_worker.Catalog.Lookup.{catalog_limit, snapshot_format}
use nix_ci_worker.Catalog.Publish.{
  Uploads, descriptor_of, descriptors_of, levels, levels_below, higher, upload_text, upload_node,
  publish_level, publish_children, publish_levels, plan_catalog, publish_catalog,
}
use nix_ci_worker.Catalog.Publish.Upload.{IsUploaded, IsUploaded-Grows, upload_text-IsUploaded}
use nix_ci_worker.Catalog.Publish.Sent.{Sent, AllSent, Sent-Grows, Grows-trans, publish_levels-Sent}

-- A partition without its descriptors.
unfoldable mutual
  pub bare : Partition → Partition
  bare (leaf d limit records) = leaf no_descriptor limit records
  bare (branch d limit below) = branch no_descriptor limit (bare_below below)

  pub bare_below : Children → Children
  bare_below no_children = no_children
  bare_below (child nibble plan rest) = child nibble (bare plan) (bare_below rest)

module _ (e : Encoding) (send : Text → Result Descriptor) where
  mutual
    unfolding publish_level bare

    publish_level-bare :
        (depth : ℕ) (plan : Partition) (u : Uploads) (done : Partition × Uploads)
        → publish_level e send depth plan u ≡ ok done
        → bare done.0 ≡ bare plan
    publish_level-bare zero (leaf d limit records) u done h =
        let (x, hx, last) =
          ok_parts (upload_node e send (leaf_node records) limit u)
            (λ x. ok (leaf x.0 limit records, x.1)) h in
        ap (λ (y : Partition × Uploads). bare y.0)
          (sym (ok_eq (leaf x.0 limit records, x.1) done last))
    publish_level-bare zero (branch d limit below) u done h =
        let (x, hx, last) =
          ok_parts
            (upload_node e send (record { records = none; children = some (descriptors_of below) })
              limit u)
            (λ x. ok (branch x.0 limit below, x.1)) h in
        ap (λ (y : Partition × Uploads). bare y.0)
          (sym (ok_eq (branch x.0 limit below, x.1) done last))
    publish_level-bare (suc depth) (leaf d limit records) u done last =
        ap (λ (y : Partition × Uploads). bare y.0) (sym (ok_eq (leaf d limit records, u) done last))
    publish_level-bare (suc depth) (branch d limit below) u done h =
        let (x, hx, last) =
          ok_parts (publish_children e send depth below u) (λ x. ok (branch d limit x.0, x.1)) h in
        ap (λ (y : Partition × Uploads). bare y.0) (sym (ok_eq (branch d limit x.0, x.1) done last))
        ∙ ap (branch no_descriptor limit) (publish_children-bare_below depth below u x hx)

    publish_children-bare_below :
        (depth : ℕ) (below : Children) (u : Uploads) (done : Children × Uploads)
        → publish_children e send depth below u ≡ ok done
        → bare_below done.0 ≡ bare_below below
    publish_children-bare_below depth no_children u done last =
        ap (λ (y : Children × Uploads). bare_below y.0) (sym (ok_eq (no_children, u) done last))
    publish_children-bare_below depth (child nibble plan rest) u done h =
        let (x, hx, h1) =
          ok_parts (publish_level e send depth plan u)
            (λ x. publish_children e send depth rest x.1 >>= λ y. ok (child nibble x.0 y.0, y.1))
            h in
        let (y, hy, last) =
          ok_parts (publish_children e send depth rest x.1) (λ y. ok (child nibble x.0 y.0, y.1))
            h1 in
        let first = publish_level-bare depth plan u x hx in
        let others = publish_children-bare_below depth rest x.1 y hy in
        ap (λ (y : Children × Uploads). bare_below y.0)
          (sym (ok_eq (child nibble x.0 y.0, y.1) done last))
        ∙ ap (λ p. child nibble p (bare_below y.0)) first
        ∙ ap (child nibble (bare plan)) others

  publish_levels-bare :
      (depth : ℕ) (c w : Partition) (u : Uploads) (done : (Partition × Partition) × Uploads)
      → publish_levels e send depth (c, w) u ≡ ok done
      → (bare done.0.0 ≡ bare c) × (bare done.0.1 ≡ bare w)
  unfolding publish_levels
  publish_levels-bare zero c w u done last =
      let same = sym (ok_eq ((c, w), u) done last) in
      (
        ap (λ (y : (Partition × Partition) × Uploads). bare y.0.0) same,
        ap (λ (y : (Partition × Partition) × Uploads). bare y.0.1) same,
      )
  publish_levels-bare (suc depth) c w u done h =
      let (x, hx, h1) = ok_parts (publish_level e send depth c u) _ h in
      let (y, hy, h2) = ok_parts (publish_level e send depth w x.1) _ h1 in
      let (left, right) = publish_levels-bare depth x.0 y.0 y.1 done h2 in
      (left ∙ publish_level-bare depth c u x hx, right ∙ publish_level-bare depth w x.1 y hy)

module _ (e : Encoding) (send : Text → Result Descriptor) (blobs : Dict Descriptor) where
  -- What a root that was published under a descriptor refers to: trees of the snapshot's records and the metadata, all of them uploaded.
  pub record IsComplete (metadata : Result Text) (marshal_root : CatalogRoot → Result Text)
      (recipients : Text) (s : Snapshot) (d : Descriptor) (v : Uploads) : Type 0 where
    pub planned : Partition × Partition
    pub published : Partition × Partition
    pub text : Text
    pub metadata_at : Descriptor
    pub raw : Text
    pub plans_of : plan_catalog e send s ≡ ok planned
    pub metadata_of : metadata ≡ ok text
    pub root_of :
        marshal_root (record {
          format = snapshot_format;
          version = 3;
          index = descriptor_of published.0;
          writer = descriptor_of published.1;
          metadata = metadata_at;
          recipients = recipients;
        })
        ≡ ok raw
    pub same : (bare published.0 ≡ bare planned.0) × (bare published.1 ≡ bare planned.1)
    pub consumer_sent : Sent e send blobs zero v published.0
    pub writer_sent : Sent e send blobs zero v published.1
    pub metadata_sent : IsUploaded e.content_digest send blobs v metadata_at text
    pub root_sent : IsUploaded e.content_digest send blobs v d raw

  -- A depth that has a tree's levels leaves nothing that had to be sent before.
  mutual
    unfolding levels Sent

    levels-Sent :
        (depth : ℕ) (u : Uploads) (plan : Partition)
        → levels plan ≤ depth
        → Sent e send blobs depth u plan
    levels-Sent zero u (leaf d limit records) h = absurd (omega arith)
    levels-Sent zero u (branch d limit below) h = absurd (omega arith)
    levels-Sent (suc depth) u (leaf d limit records) h = tt
    levels-Sent (suc depth) u (branch d limit below) h =
        levels_below-AllSent depth u below (omega arith)

    levels_below-AllSent :
        (depth : ℕ) (u : Uploads) (below : Children)
        → levels_below below ≤ depth
        → AllSent e send blobs depth u below
    levels_below-AllSent depth u no_children h = tt
    levels_below-AllSent depth u (child nibble plan rest) h =
        (levels-Sent depth u plan (ground arith), levels_below-AllSent depth u rest (ground arith))

  no_upload : {P : Type 0} (d : Descriptor) → ◌≡◌ {A = Option Descriptor} none (some d) → P
  no_upload d h = cc

  -- When publishCatalog succeeds, the root that was uploaded names the metadata and two trees, which
  -- have the nodes and records that were planned from the snapshot; each node of the trees was uploaded
  -- with the descriptors of its children as they were published, and all these blobs are layers. A
  -- descriptor is what was got for a text that was sent and has the digest of the node's, or that of a
  -- blob which was published before under this digest.
  pub publish_catalog-IsComplete :
      (metadata : Result Text) (marshal_root : CatalogRoot → Result Text) (recipients : Text)
      (layers : Dict Descriptor) (s : Snapshot) (d : Descriptor) (v : Uploads)
      → publish_catalog e send metadata marshal_root recipients blobs layers s ≡ ok (d, v)
      → IsComplete metadata marshal_root recipients s d v
  unfolding publish_catalog
  publish_catalog-IsComplete metadata marshal_root recipients layers s d v h =
      let (plans, hp, h1) = ok_parts (plan_catalog e send s) _ h in
      let (text, ht, h2) = ok_parts metadata _ h1 in
      let (small, h3) = passed (leb (length text) catalog_limit) "catalog exceeds limit" _ h2 in
      let start : Uploads = record {
        uploads = [];
        catalog_blobs = blobs;
        reused = [];
        layers = layers;
        sent = [];
      } in
      let depth = higher (levels plans.0) (levels plans.1) in
      let (done, hd, h4) = ok_parts (publish_levels e send depth plans start) _ h3 in
      let (meta, hm, h5) =
        ok_parts (upload_text e.content_digest send text catalog_limit done.1) _ h4 in
      let (raw, hr, hu) =
        ok_parts (marshal_root _)
          (λ raw. upload_text e.content_digest send raw catalog_root_limit meta.1) h5 in
      let (trees, g1) =
        publish_levels-Sent e send blobs depth plans.0 plans.1 start done.1 done.0 hd
          (refl, λ hash d h. no_upload d h) (levels-Sent depth start plans.0 (ground arith))
          (levels-Sent depth start plans.1 (ground arith)) in
      let (about, g2) =
        upload_text-IsUploaded e.content_digest send blobs text catalog_limit done.1 meta.1 meta.0
          hm g1.1 in
      let (root, g3) =
        upload_text-IsUploaded e.content_digest send blobs raw catalog_root_limit meta.1 v d hu
          g2.1 in
      let g = Grows-trans e send blobs done.1 meta.1 v g2.0 g3.0 in
      record {
        planned = plans;
        published = done.0;
        text = text;
        metadata_at = meta.0;
        raw = raw;
        plans_of = hp;
        metadata_of = ht;
        root_of = hr;
        same = publish_levels-bare e send depth plans.0 plans.1 start (done.0, done.1) hd;
        consumer_sent = Sent-Grows e send blobs zero done.1 v done.0.0 g trees.0;
        writer_sent = Sent-Grows e send blobs zero done.1 v done.0.1 g trees.1;
        metadata_sent =
            IsUploaded-Grows e.content_digest send blobs meta.1 v meta.0 text g3.0 about;
        root_sent = root;
      }
