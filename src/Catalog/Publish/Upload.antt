-- ===== src/Catalog/Publish/Upload.antt =====
-- worker/catalog.go: the upload of one text by publishCatalog.
use nix_ci_worker.Base.{
  List, [], ◌∷◌, ◌⊎◌, Option, Option-cases, some_eq, ℕ, ◌≡◌, refl, sym, ap, ◌∙◌, subst, inl, inr,
  Text, Dict, none, some, Bool, true, ◌||◌, leb, length, text_eq, text_eq_iff, text_eq_self, has,
  has-insert, lookup, lookup-insert, insert, Result, ok, ok_eq, ok_parts, passed, arith, Bool-cases,
}
use nix_ci_worker.Snapshot.Files.{Descriptor}
use nix_ci_worker.Catalog.Publish.{Uploads, descriptor_for, upload_text}

-- The entry is in the list.
abbrev pub Among : Text × Descriptor → List (Text × Descriptor) → Type 0
Among x [] = ⊥
Among x (y ∷ ys) = (y ≡ x) ⊎ Among x ys

-- No upload, no layer and nothing that was sent is taken back.
abbrev pub Grows : Uploads → Uploads → Type 0
Grows u v =
    ((hash : Text) (d : Descriptor)
      → lookup hash u.uploads ≡ some d
      → lookup hash v.uploads ≡ some d)
    × ((digest : Text) → has u.layers digest ≡ true → has v.layers digest ≡ true)
    × ((x : Text × Descriptor) → Among x u.sent → Among x v.sent)

or_true : (b : Bool) → (b || true) ≡ true
or_true b = ground arith

abbrev after_upload : Text → Descriptor → List (Text × Descriptor) → Uploads → Uploads
after_upload hash d log u = record u {
  uploads = insert hash d u.uploads;
  reused = insert hash d u.reused;
  layers = insert d.digest d u.layers;
  sent = log;
}

kept_entry :
    (hash k : Text) (d x : Descriptor) (m : Dict Descriptor)
    → lookup k m ≡ some x
    → (lookup hash m ≡ some x → x ≡ d)
    → lookup k (insert hash d m) ≡ some x
kept_entry hash k d x m known same = elim (Bool-cases (text_eq hash k)) [
  | inl e ↦
      lookup-insert hash k d m
      ∙ rw e (
          ap (λ (y : Descriptor). some y)
            (sym (same (subst (λ j. lookup j m ≡ some x) (sym ((text_eq_iff hash k).0 e)) known))))
  | inr e ↦ lookup-insert hash k d m ∙ rw e known
]

module _ (content_digest : Text → Text) (send : Text → Result Descriptor)
    (blobs : Dict Descriptor) where
  -- A text with the digest was sent and got the descriptor, or a blob that was published before has both.
  abbrev pub Came : Uploads → Text → Descriptor → Type 0
  Came u hash d =
      ((raw : Text) × (content_digest raw ≡ hash) × (send raw ≡ ok d) × Among (raw, d) u.sent)
      ⊎ (lookup hash blobs ≡ some d)

  -- A text was uploaded under a descriptor, which is a layer.
  abbrev pub IsUploaded : Uploads → Descriptor → Text → Type 0
  IsUploaded u d raw =
      (lookup (content_digest raw) u.uploads ≡ some d)
      × (has u.layers d.digest ≡ true)
      × Came u (content_digest raw) d

  abbrev pub Honest : Uploads → Type 0
  Honest u =
      (u.catalog_blobs ≡ blobs)
      × ((hash : Text) (d : Descriptor) → lookup hash u.uploads ≡ some d → Came u hash d)

  pub Came-Grows :
      (u v : Uploads) (hash : Text) (d : Descriptor) → Grows u v → Came u hash d → Came v hash d
  Came-Grows u v hash d g (inl (raw, same, got, logged)) = inl (raw, same, got, g.2 (raw, d) logged)
  Came-Grows u v hash d g (inr known) = inr known

  pub IsUploaded-Grows :
      (u v : Uploads) (d : Descriptor) (raw : Text)
      → Grows u v
      → IsUploaded u d raw
      → IsUploaded v d raw
  IsUploaded-Grows u v d raw g (found, layer, came) =
      (g.0 _ d found, g.1 d.digest layer, Came-Grows u v _ d g came)

  -- A descriptor for a text: what is known of it, and of the log.
  record Found (raw : Text) (u : Uploads) (d : Descriptor) (log : List (Text × Descriptor))
      : Type 0 where
    known : (x : Descriptor) → lookup (content_digest raw) u.uploads ≡ some x → x ≡ d
    more : (x : Text × Descriptor) → Among x u.sent → Among x log
    came : Came (after_upload (content_digest raw) d log u) (content_digest raw) d

  descriptor_for-Found :
      (raw : Text) (u : Uploads) (x : Descriptor × List (Text × Descriptor))
      → descriptor_for content_digest send raw u ≡ ok x
      → Honest u
      → Found raw u x.0 x.1
  unfolding descriptor_for
  descriptor_for-Found raw u x h (theirs, honest) =
      let hash = content_digest raw in
      elim (Option-cases (lookup hash u.uploads)) [
        | inr (d, e) ↦
            subst (λ (y : Descriptor × List (Text × Descriptor)). Found raw u y.0 y.1)
              (ok_eq (d, u.sent) x (rw (e, descriptor_for) at h))
              (record {
                known = λ y k. some_eq y d (sym k ∙ e);
                more = λ y k. k;
                came = honest hash d e;
              })
        | inl e ↦ elim (Option-cases (lookup hash u.catalog_blobs)) [
          | inr (d, f) ↦
              subst (λ (y : Descriptor × List (Text × Descriptor)). Found raw u y.0 y.1)
                (ok_eq (d, u.sent) x (rw (e, f, descriptor_for) at h))
                (record {
                  known = λ y k. absurd (no_descriptor y (sym e ∙ k));
                  more = λ y k. k;
                  came = inr (ap (lookup hash) (sym theirs) ∙ f);
                })
          | inl f ↦
              let (d, got, last) =
                ok_parts (send raw) (λ d. ok (d, (raw, d) ∷ u.sent))
                  (rw (e, f, descriptor_for) at h) in
              subst (λ (y : Descriptor × List (Text × Descriptor)). Found raw u y.0 y.1)
                (ok_eq (d, (raw, d) ∷ u.sent) x last)
                (record {
                  known = λ y k. absurd (no_descriptor y (sym e ∙ k));
                  more = λ y k. inr k;
                  came = inl (raw, refl, got, inl refl);
                })
        ]
      ]
    where
      no_descriptor : (y : Descriptor) → ◌≡◌ {A = Option Descriptor} none (some y) → ⊥
      no_descriptor y k = cc

  after_upload-Grows :
      (raw : Text) (u : Uploads) (d : Descriptor) (log : List (Text × Descriptor))
      → Found raw u d log
      → Grows u (after_upload (content_digest raw) d log u)
  after_upload-Grows raw u d log found = (
    λ k x there. kept_entry (content_digest raw) k d x u.uploads there (found.known x),
    λ digest there.
        has-insert d.digest digest d u.layers
        ∙ ap (λ b. text_eq d.digest digest || b) there
        ∙ or_true (text_eq d.digest digest),
    found.more,
  )

  after_upload-Honest :
      (raw : Text) (u : Uploads) (d : Descriptor) (log : List (Text × Descriptor))
      → Found raw u d log
      → Honest u
      → Honest (after_upload (content_digest raw) d log u)
  after_upload-Honest raw u d log found (theirs, honest) = (theirs, all)
    where
      hash : Text
      hash = content_digest raw

      all :
          (k : Text) (x : Descriptor)
          → lookup k (insert hash d u.uploads) ≡ some x
          → Came (after_upload hash d log u) k x
      all k x h = elim (Bool-cases (text_eq hash k)) [
        | inl e ↦
            let same = some_eq d x (sym (lookup-insert hash k d u.uploads ∙ rw e refl) ∙ h) in
            subst (λ j. Came (after_upload hash d log u) j x) ((text_eq_iff hash k).0 e)
              (subst (Came (after_upload hash d log u) hash) same found.came)
        | inr e ↦
            Came-Grows u (after_upload hash d log u) k x (after_upload-Grows raw u d log found)
              (honest k x (sym (lookup-insert hash k d u.uploads ∙ rw e refl) ∙ h))
      ]

  -- What a step does to the uploads.
  abbrev pub Extends : Uploads → Uploads → Type 0
  Extends u v = Grows u v × Honest v

  pub upload_text-IsUploaded :
      (raw : Text) (limit : ℕ) (u v : Uploads) (d : Descriptor)
      → upload_text content_digest send raw limit u ≡ ok (d, v)
      → Honest u
      → IsUploaded v d raw × Extends u v
  unfolding upload_text
  upload_text-IsUploaded raw limit u v d h honest =
      let hash = content_digest raw in
      let (small, h1) = passed (leb (length raw) limit) "catalog exceeds limit" _ h in
      let (x, chosen, last) = ok_parts (descriptor_for content_digest send raw u) _ h1 in
      let found = descriptor_for-Found raw u x chosen honest in
      subst (λ (y : Descriptor × Uploads). IsUploaded y.1 y.0 raw × Extends u y.1)
        (ok_eq (x.0, after_upload hash x.0 x.1 u) (d, v) last)
        (
          (
            lookup-insert hash hash x.0 u.uploads ∙ rw (text_eq_self hash) refl,
            has-insert x.0.digest x.0.digest x.0 u.layers
                ∙ ap (λ b. b || has u.layers x.0.digest) (text_eq_self x.0.digest),
            found.came,
          ),
          (after_upload-Grows raw u x.0 x.1 found, after_upload-Honest raw u x.0 x.1 found honest),
        )
