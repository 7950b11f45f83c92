-- ===== src/Catalog/Publish/Sent.antt =====
-- worker/catalog.go: the nodes that publishCatalog has uploaded, level by level.
use nix_ci_worker.Base.{
  Dict, ℕ, zero, suc, ◌≡◌, subst, Text, none, some, Result, ok, ok_eq, ok_parts, ◌>>=◌,
}
use nix_ci_worker.Snapshot.Files.{Descriptor}
use nix_ci_worker.Catalog.{CatalogNode}
use nix_ci_worker.Catalog.Partition.{
  Partition, leaf, branch, Children, no_children, child, Encoding, leaf_node,
}
use nix_ci_worker.Catalog.Publish.{
  Uploads, descriptors_of, upload_text, upload_node, publish_level, publish_children,
  publish_levels,
}
use nix_ci_worker.Catalog.Publish.Upload.{
  IsUploaded, IsUploaded-Grows, Honest, Extends, Grows, upload_text-IsUploaded,
}

module _ (e : Encoding) (send : Text → Result Descriptor) (blobs : Dict Descriptor) where
  abbrev Ours : Uploads → Type 0
  Ours = Honest e.content_digest send blobs

  abbrev Onward : Uploads → Uploads → Type 0
  Onward = Extends e.content_digest send blobs

  -- A node's text was uploaded.
  abbrev pub IsSent : Uploads → Descriptor → CatalogNode → Type 0
  IsSent u d n =
      (raw : Text) × (e.marshal n ≡ ok raw) × IsUploaded e.content_digest send blobs u d raw

  -- The nodes from a depth on were uploaded, each with the descriptors that its children have.
  unfoldable mutual
    pub Sent : ℕ → Uploads → Partition → Type 0
    Sent zero u (leaf d limit records) = IsSent u d (leaf_node records)
    Sent zero u (branch d limit below) =
        IsSent u d (record { records = none; children = some (descriptors_of below) })
        × AllSent zero u below
    Sent (suc depth) u (leaf d limit records) = Unit
    Sent (suc depth) u (branch d limit below) = AllSent depth u below

    pub AllSent : ℕ → Uploads → Children → Type 0
    AllSent depth u no_children = Unit
    AllSent depth u (child nibble plan rest) = Sent depth u plan × AllSent depth u rest

  IsSent-Grows :
      (u v : Uploads) (d : Descriptor) (n : CatalogNode) → Grows u v → IsSent u d n → IsSent v d n
  IsSent-Grows u v d n g (raw, read, sent) =
      (raw, read, IsUploaded-Grows e.content_digest send blobs u v d raw g sent)

  mutual
    unfolding Sent

    pub Sent-Grows :
        (depth : ℕ) (u v : Uploads) (plan : Partition)
        → Grows u v
        → Sent depth u plan
        → Sent depth v plan
    Sent-Grows zero u v (leaf d limit records) g s = IsSent-Grows u v d (leaf_node records) g s
    Sent-Grows zero u v (branch d limit below) g s =
        (IsSent-Grows u v d _ g s.0, AllSent-Grows zero u v below g s.1)
    Sent-Grows (suc depth) u v (leaf d limit records) g s = tt
    Sent-Grows (suc depth) u v (branch d limit below) g s = AllSent-Grows depth u v below g s

    AllSent-Grows :
        (depth : ℕ) (u v : Uploads) (below : Children)
        → Grows u v
        → AllSent depth u below
        → AllSent depth v below
    AllSent-Grows depth u v no_children g s = tt
    AllSent-Grows depth u v (child nibble plan rest) g s =
        (Sent-Grows depth u v plan g s.0, AllSent-Grows depth u v rest g s.1)

  upload_node-IsSent :
      (n : CatalogNode) (limit : ℕ) (u v : Uploads) (d : Descriptor)
      → upload_node e send n limit u ≡ ok (d, v)
      → Ours u
      → IsSent v d n × Onward u v
  unfolding upload_node
  upload_node-IsSent n limit u v d h o =
      let (raw, read, h1) =
        ok_parts (e.marshal n) (λ raw. upload_text e.content_digest send raw limit u) h in
      let (sent, grown) = upload_text-IsUploaded e.content_digest send blobs raw limit u v d h1 o in
      ((raw, read, sent), grown)

  Onward-refl : (u : Uploads) → Ours u → Onward u u
  Onward-refl u o = ((λ hash d h. h, λ digest h. h, λ x h. h), o)

  pub Grows-trans : (u v w : Uploads) → Grows u v → Grows v w → Grows u w
  Grows-trans u v w f g = (
    λ hash d h. g.0 hash d (f.0 hash d h),
    λ digest h. g.1 digest (f.1 digest h),
    λ x h. g.2 x (f.2 x h),
  )

  mutual
    unfolding publish_level Sent

    publish_level-Sent :
        (depth : ℕ) (plan : Partition) (u v : Uploads) (done : Partition)
        → publish_level e send depth plan u ≡ ok (done, v)
        → Ours u
        → Sent (suc depth) u plan
        → Sent depth v done × Onward u v
    publish_level-Sent zero (leaf d limit records) u v done h o s =
        let (x, hx, last) =
          ok_parts (upload_node e send (leaf_node records) limit u)
            (λ x. ok (leaf x.0 limit records, x.1)) h in
        subst (λ (y : Partition × Uploads). Sent zero y.1 y.0 × Onward u y.1)
          (ok_eq (leaf x.0 limit records, x.1) (done, v) last)
          (upload_node-IsSent (leaf_node records) limit u x.1 x.0 hx o)
    publish_level-Sent zero (branch d limit below) u v done h o s =
        let n : CatalogNode = record { records = none; children = some (descriptors_of below) } in
        let (x, hx, last) =
          ok_parts (upload_node e send n limit u) (λ x. ok (branch x.0 limit below, x.1)) h in
        let (sent, grown) = upload_node-IsSent n limit u x.1 x.0 hx o in
        subst (λ (y : Partition × Uploads). Sent zero y.1 y.0 × Onward u y.1)
          (ok_eq (branch x.0 limit below, x.1) (done, v) last)
          ((sent, AllSent-Grows zero u x.1 below grown.0 s), grown)
    publish_level-Sent (suc depth) (leaf d limit records) u v done last o s =
        subst (λ (y : Partition × Uploads). Sent (suc depth) y.1 y.0 × Onward u y.1)
          (ok_eq (leaf d limit records, u) (done, v) last) (tt, Onward-refl u o)
    publish_level-Sent (suc depth) (branch d limit below) u v done h o s =
        let (x, hx, last) =
          ok_parts (publish_children e send depth below u) (λ x. ok (branch d limit x.0, x.1)) h in
        subst (λ (y : Partition × Uploads). Sent (suc depth) y.1 y.0 × Onward u y.1)
          (ok_eq (branch d limit x.0, x.1) (done, v) last)
          (publish_children-AllSent depth below u x.1 x.0 hx o s)

    publish_children-AllSent :
        (depth : ℕ) (below : Children) (u v : Uploads) (done : Children)
        → publish_children e send depth below u ≡ ok (done, v)
        → Ours u
        → AllSent (suc depth) u below
        → AllSent depth v done × Onward u v
    publish_children-AllSent depth no_children u v done last o s =
        subst (λ (y : Children × Uploads). AllSent depth y.1 y.0 × Onward u y.1)
          (ok_eq (no_children, u) (done, v) last) (tt, Onward-refl u o)
    publish_children-AllSent depth (child nibble plan rest) u v done h o s =
        let (x, hx, h1) =
          ok_parts (publish_level e send depth plan u)
            (λ x. publish_children e send depth rest x.1 >>= λ y. ok (child nibble x.0 y.0, y.1))
            h in
        let (y, hy, last) =
          ok_parts (publish_children e send depth rest x.1) (λ y. ok (child nibble x.0 y.0, y.1))
            h1 in
        let (s1, g1) = publish_level-Sent depth plan u x.1 x.0 hx o s.0 in
        let (s2, g2) =
          publish_children-AllSent depth rest x.1 y.1 y.0 hy g1.1
            (AllSent-Grows (suc depth) u x.1 rest g1.0 s.1) in
        subst (λ (y : Children × Uploads). AllSent depth y.1 y.0 × Onward u y.1)
          (ok_eq (child nibble x.0 y.0, y.1) (done, v) last)
          ((Sent-Grows depth x.1 y.1 x.0 g2.0 s1, s2), (Grows-trans u x.1 y.1 g1.0 g2.0, g2.1))

  pub publish_levels-Sent :
      (depth : ℕ) (c w : Partition) (u v : Uploads) (done : Partition × Partition)
      → publish_levels e send depth (c, w) u ≡ ok (done, v)
      → Ours u
      → Sent depth u c
      → Sent depth u w
      → (Sent zero v done.0 × Sent zero v done.1) × Onward u v
  unfolding publish_levels
  publish_levels-Sent zero c w u v done last o s t =
      subst
        (λ (y : (Partition × Partition) × Uploads).
          (Sent zero y.1 y.0.0 × Sent zero y.1 y.0.1) × Onward u y.1)
        (ok_eq ((c, w), u) (done, v) last) ((s, t), Onward-refl u o)
  publish_levels-Sent (suc depth) c w u v done h o s t =
      let (x, hx, h1) = ok_parts (publish_level e send depth c u) _ h in
      let (y, hy, h2) = ok_parts (publish_level e send depth w x.1) _ h1 in
      let (s1, g1) = publish_level-Sent depth c u x.1 x.0 hx o s in
      let (t1, g2) =
        publish_level-Sent depth w x.1 y.1 y.0 hy g1.1 (Sent-Grows (suc depth) u x.1 w g1.0 t) in
      let (both, g3) =
        publish_levels-Sent depth x.0 y.0 y.1 v done h2 g2.1 (Sent-Grows depth x.1 y.1 x.0 g2.0 s1)
          t1 in
      (both, (Grows-trans u x.1 v g1.0 (Grows-trans x.1 y.1 v g2.0 g3.0), g3.1))
