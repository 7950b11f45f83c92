-- ===== src/Tests/CatalogRuns.antt =====
-- worker/catalog.go on a catalog of two files, in a tree of two leaves.
use nix_ci_worker.Base.{
  ℕ, zero, suc, ◌≡◌, refl, sym, Text, Dict, [], ◌∷◌, ◌++◌, none, some, Bool, true, false, map,
  codes, text_eq, if◌then◌else◌, lookup, insert, has_prefix, drop_prefix, contains, sort_by,
  insert_by, text_le, sorted_keys, Result, err, ok, false≢true,
}
use nix_ci_worker.Base.Int.{pos, ◌-ℤ◌}
use nix_ci_worker.Snapshot.Files.{Descriptor, SnapshotFile, digest_pattern, in_blob, validate}
use nix_ci_worker.Snapshot.Records.{Snapshot}
use nix_ci_worker.Catalog.{
  CatalogRecord, CatalogNode, Records, no_record, no_descriptor, hash_then, archive_end,
  archive_file, valid_cache_path, consumer_file,
}
use nix_ci_worker.Catalog.Partition.{
  Partition, leaf, branch, no_children, child, Encoding, slice, nibble, group, partition_groups,
  partition_from, partition_catalog,
}
use nix_ci_worker.Catalog.Partition.Errors.{Unsplit, partition_catalog_err}
use nix_ci_worker.Catalog.View.{
  Reading, CatalogRoot, View, reachable_blob, validate_file, check_references, check_file,
  check_narinfo, check_record, name_hash, read_catalog_blob,
}
use nix_ci_worker.Catalog.Lookup.{opened, lookup_name}
use nix_ci_worker.Catalog.Published.{Stored}
use nix_ci_worker.Catalog.Added.{Agrees, narinfo_of}
use nix_ci_worker.Catalog.Answers.{lookup_answers}

abbrev fill : ℕ → ℕ → Text
fill c zero = []
fill c (suc n) = c ∷ fill c n

abbrev pub info : Text
info = codes "cache/nix-cache-info"

abbrev archive : Text
archive = codes "cache/nar/a.nar"

-- A digest that begins with an a for one name and with a b for the others.
digest_by : Bool → Text
digest_by is_info = codes "sha256:" ++ (if is_info then b'a' else b'b') ∷ fill b'0' 63

abbrev digest_of : Text → Text
digest_of name = digest_by (text_eq name info)

abbrev some_digest : Text
some_digest = codes "sha256:" ++ fill b'1' 64

abbrev pack : Descriptor
pack = record { digest = some_digest; size = pos 10; media_type = [] }

abbrev pub file_at : ℕ → SnapshotFile
file_at offset = record {
  blob = pack;
  offset = pos offset;
  size = pos 5;
  digest = codes "sha256:" ++ fill b'2' 64;
}

abbrev files : Text → SnapshotFile
files name = if text_eq name info then file_at 0 else file_at 5

abbrev records : Records
records =
    (info, record no_record { file = some (file_at 0) })
    ∷ (archive, record no_record { file = some (file_at 5) })
    ∷ []

abbrev blob : Text → Descriptor
blob digest = record { digest = digest; size = pos 1; media_type = [] }

abbrev reachable : Dict Descriptor
reachable =
    (some_digest, pack)
    ∷ (codes "root", blob (codes "root"))
    ∷ (codes "left", blob (codes "left"))
    ∷ (codes "right", blob (codes "right"))
    ∷ []

abbrev leaf_of : ℕ → CatalogNode
leaf_of zero = record {
  records = some ((info, record no_record { file = some (file_at 0) }) ∷ []);
  children = none;
}
leaf_of (suc n) = record {
  records = some ((archive, record no_record { file = some (file_at 5) }) ∷ []);
  children = none;
}

abbrev root_node : CatalogNode
root_node = record {
  records = none;
  children = some ((codes "a", blob (codes "left")) ∷ (codes "b", blob (codes "right")) ∷ []);
}

abbrev root : CatalogRoot
root = record {
  format = [];
  version = 3;
  index = blob (codes "root");
  writer = blob (codes "root");
  metadata = blob (codes "root");
  recipients = [];
}

-- Blobs whose text is their digest.
abbrev reading : Reading
reading = record {
  content_digest = digest_of;
  decrypt = λ d limit. ok d.digest;
  decode_node = λ raw.
      if text_eq raw (codes "root")
      then ok root_node
      else if text_eq raw (codes "left")
      then ok (leaf_of 0)
      else ok (leaf_of 1);
  decode_root = λ raw. ok root;
  decode_metadata = λ raw. ok true;
}

-- A text of one byte for each record.
abbrev marshal_node : CatalogNode → Result Text
marshal_node n = elim n.records [ none ↦ ok [] | some rs ↦ ok (map (λ r. 0) rs) ]

abbrev encoding : Encoding
encoding = record { content_digest = digest_of; marshal = marshal_node }

abbrev plan : Partition
plan = branch no_descriptor 1 (
    child (codes "a")
      (leaf no_descriptor 1 ((info, record no_record { file = some (file_at 0) }) ∷ []))
      (child (codes "b")
        (leaf no_descriptor 1 ((archive, record no_record { file = some (file_at 5) }) ∷ []))
        no_children))

digests_are : (is_info : Bool) → digest_pattern (digest_by is_info) ≡ true
unfolding digest_by digest_pattern has_prefix drop_prefix
digests_are true = refl
digests_are false = refl

partitioned : partition_catalog encoding 1 records ≡ ok plan
unfolding partition_catalog partition_from partition_groups group nibble slice lookup insert
    sorted_keys sort_by insert_by text_le text_eq digest_by
partitioned = refl

stored : Stored reading reachable [] (blob (codes "root")) plan
unfolding Stored reachable_blob read_catalog_blob lookup text_eq contains
stored = (
  refl,
  (
    (codes "a", blob (codes "left")) ∷ (codes "b", blob (codes "right")) ∷ [],
    (refl, (codes "root", refl, refl)),
    (
      refl,
      (
        refl,
        (
          (refl, (refl, (codes "left", refl, refl))),
          (refl, (refl, ((refl, (refl, (codes "right", refl, refl))), tt))),
        ),
      ),
    ),
  ),
)

abbrev view : View
view = opened root reachable

checked :
    (check_record reading reachable [] true (info, record no_record { file = some (file_at 0) })
      ≡ ok tt)
    × (check_record reading reachable [] true
          (archive, record no_record { file = some (file_at 5) })
        ≡ ok tt)
unfolding check_record consumer_file has_prefix drop_prefix valid_cache_path hash_then archive_file
    archive_end text_eq name_hash check_references check_file check_narinfo validate_file validate
    digest_pattern in_blob ◌-ℤ◌ reachable_blob lookup
checked = (refl, refl)

file_eq : (f g : SnapshotFile) → some f ≡ some g → g ≡ f
file_eq f g h = cc

agrees :
    Agrees files (info, record no_record { file = some (file_at 0) })
    × Agrees files (archive, record no_record { file = some (file_at 5) })
unfolding text_eq
agrees = (
  (λ f h. file_eq (file_at 0) f h, λ h. absurd (false≢true (sym h))),
  (λ f h. file_eq (file_at 5) f h, λ h. absurd (false≢true (sym h))),
)

lookup_answers_example :
    (s : Snapshot) × (next : View) × (lookup_name reading view archive ≡ ok (s, next))
    × (lookup archive s.narinfos ≡ narinfo_of (lookup archive records) none)
    × ((r : CatalogRecord) (f : SnapshotFile)
        → lookup archive records ≡ some r
        → r.file ≡ some f
        → lookup archive s.files ≡ some f)
unfolding contains text_eq
lookup_answers_example =
    lookup_answers reading encoding 1 files view archive records plan
      (λ name. digests_are (text_eq name info)) refl ([], refl, refl) (refl, (refl, tt))
      ((checked.0, agrees.0), ((checked.1, agrees.1), tt)) partitioned stored refl refl

-- With no room for any record.
unsplit : partition_catalog encoding 0 records ≡ err "cache record exceeds catalog node limit"
unfolding partition_catalog partition_from partition_groups group nibble slice lookup insert
    sorted_keys sort_by insert_by text_le text_eq digest_by
unsplit = refl

partition_catalog_err_example :
    Unsplit encoding 0 (λ rs. (map (λ r. 0) rs, refl)) (λ en. lookup en.0 records ≡ some en.1)
unfolding lookup text_eq
partition_catalog_err_example =
    partition_catalog_err encoding 0 (λ rs. (map (λ r. 0) rs, refl))
      (λ en. lookup en.0 records ≡ some en.1) records "cache record exceeds catalog node limit"
      (refl, (refl, tt)) unsplit
