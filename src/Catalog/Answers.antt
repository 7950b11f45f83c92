-- ===== src/Catalog/Answers.antt =====
-- worker/catalog.go: what a lookup in a published catalog answers.
use nix_ci_worker.Base.{
  ℕ, ◌≡◌, refl, sym, ap, ◌∙◌, inl, inr, Text, [], Option, none, some, true, has, keys, lookup,
  IsUnique, All, All-entries, Result, ok, ◌>>=◌, Option-cases, false≢true,
}
use nix_ci_worker.Snapshot.Files.{SnapshotFile}
use nix_ci_worker.Snapshot.Records.{Snapshot, new_snapshot}
use nix_ci_worker.Catalog.{CatalogRecord, Records}
use nix_ci_worker.Catalog.Partition.{Partition, Encoding, partition_catalog}
use nix_ci_worker.Catalog.Partition.Groups.{Fits}
use nix_ci_worker.Catalog.View.{Reading, View, check_record}
use nix_ci_worker.Catalog.Lookup.{lookup_name}
use nix_ci_worker.Catalog.Digits.{AreDigests}
use nix_ci_worker.Catalog.Published.{Stored}
use nix_ci_worker.Catalog.Found.{Seen}
use nix_ci_worker.Catalog.Roundtrip.{lookup_published}
use nix_ci_worker.Catalog.Added.{Agrees, narinfo_of, add_catalog_records_lem}

nothing {ℓ} : {V : Type ℓ} (k : Text) → ◌≡◌ {A = Option V} (lookup k []) none
unfolding lookup
nothing k = refl

nothing_there : (k : Text) (f : SnapshotFile) → lookup k [] ≡ some f → ⊥
unfolding lookup
nothing_there k f h = cc

has-lookup :
    (files : Text → SnapshotFile) (s : Snapshot) (k : Text) (f : SnapshotFile)
    → ((g : SnapshotFile) → lookup k s.files ≡ some g → g ≡ files k)
    → has s.files k ≡ true
    → f ≡ files k
    → lookup k s.files ≡ some f
has-lookup files s k f agree there same = elim (Option-cases (lookup k s.files)) [
  | inl e ↦ absurd (false≢true (rw (e, has) at there))
  | inr (g, e) ↦ e ∙ ap (λ (x : SnapshotFile). some x) (agree g e ∙ sym same)
]

-- Let records be partitioned with some limit that the node without records meets, and let the tree be stored: each node's text under its descriptor, which is a layer, and no digest below itself. If each record passes the check of a consumer's record, and its locations are those of one map of files, then a lookup of any name, in a view that has read no node, succeeds: it finds the name's narinfo exactly as published, or none if the name has none, and the name's file if it has one.
pub lookup_answers :
    (reading : Reading) (e : Encoding) (limit : ℕ) (files : Text → SnapshotFile) (view : View)
    (name : Text) (records : Records) (plan : Partition)
    → AreDigests reading.content_digest
    → e.content_digest ≡ reading.content_digest
    → Fits e limit []
    → IsUnique (keys records)
    → All (λ en. (check_record reading view.reachable [] true en ≡ ok tt) × Agrees files en) records
    → partition_catalog e limit records ≡ ok plan
    → Stored reading view.reachable [] view.root.index plan
    → view.nodes ≡ []
    → view.prefixes ≡ []
    → (s : Snapshot) × (next : View) × (lookup_name reading view name ≡ ok (s, next))
      × (lookup name s.narinfos ≡ narinfo_of (lookup name records) none)
      × ((r : CatalogRecord) (f : SnapshotFile)
          → lookup name records ≡ some r
          → r.file ≡ some f
          → lookup name s.files ≡ some f)
unfolding lookup
lookup_answers reading e limit files view name records plan digests one empty unique good made
      stored no_nodes no_prefixes =
    let seen : Seen view [] =
      λ k h. (ap (lookup k) no_nodes ∙ nothing k, ap (lookup k) no_prefixes ∙ nothing k) in
    let (part, next, read, agrees, distinct, fits) =
      lookup_published reading view.reachable (Agrees files) digests e one limit empty view name
        records plan unique good made stored seen refl in
    let (s, added, grown, texts, there) =
      add_catalog_records_lem files part new_snapshot distinct fits
        (λ k f h. absurd (nothing_there k f h)) in
    (
      s,
      next,
      read ∙ ap (λ (x : Result Snapshot). x >>= λ t. ok (t, next)) added,
      texts name ∙ ap (λ o. narinfo_of o none) agrees,
      λ r f h k.
          has-lookup files s name f (grown.0 name) (there name r f (agrees ∙ h) k)
            ((All-entries (λ k q. Agrees files (k, q)) part name r fits (agrees ∙ h)).0 f k),
    )
