-- ===== src/Catalog.antt =====
-- worker/catalog.go: the records of a published cache, and which of them a client reads.
pub mod Partition
pub mod View
pub mod Lookup
pub mod Published
pub mod Digits
pub mod Found
pub mod Added
pub mod Roundtrip
pub mod Answers
pub mod Publish
use nix_ci_worker.Base.{
  ℕ, zero, suc, ◌+◌, ◌==◌, Text, Dict, List, [], ◌∷◌, ◌++◌, Option, none, some, Bool, true, false,
  not, ◌&&◌, ◌||◌, if◌then◌else◌, leb, all, codes, text_eq, get_or, has_prefix, drop_prefix,
  trim_prefix, lookup, insert, Result, ok, ◌>>=◌,
}
use nix_ci_worker.Base.Int.{pos}
use nix_ci_worker.Snapshot.Files.{Descriptor, SnapshotFile}
use nix_ci_worker.Snapshot.Paths.{hash_byte}
use nix_ci_worker.Snapshot.Narinfo.{narinfo_fields, field}

pub record CatalogRecord : Type 0 where
  pub file : Option SnapshotFile
  pub narinfo : Text
  pub archive : Option SnapshotFile
  pub references : Option (Option (List Text))

-- A nil map is `none`.
pub record CatalogNode : Type 0 where
  pub records : Option (Dict CatalogRecord)
  pub children : Option (Dict Descriptor)

abbrev pub Records : Type 0
Records = Dict CatalogRecord

abbrev pub no_record : CatalogRecord
no_record = record { file = none; narinfo = []; archive = none; references = none }

abbrev pub no_descriptor : Descriptor
no_descriptor = record { digest = []; size = pos 0; media_type = [] }

-- What a map of files answers for a name that it does not have.
abbrev pub no_file : SnapshotFile
no_file = record { blob = no_descriptor; offset = pos 0; size = pos 0; digest = [] }

-- [A-Za-z0-9]
abbrev alphanumeric : ℕ → Bool
alphanumeric c = leb b'A' c && leb c b'Z' || leb b'a' c && leb c b'z' || leb b'0' c && leb c b'9'

-- [A-Za-z0-9._-]
abbrev archive_byte : ℕ → Bool
archive_byte c = alphanumeric c || c == b'.' || c == b'_' || c == b'-'

-- So many bytes of a hash before an ending.
unfoldable pub hash_then : ℕ → Text → Text → Bool
unfolding text_eq
hash_then zero ending s = text_eq s ending
hash_then (suc n) ending [] = false
hash_then (suc n) ending (c ∷ s) = hash_byte c && hash_then n ending s

-- \.nar(?:\.[A-Za-z0-9]+)?$
unfoldable pub archive_end : Text → Bool
unfolding text_eq has_prefix drop_prefix
archive_end s =
    let compression = drop_prefix s (codes ".nar.") in
    text_eq s (codes ".nar")
    || has_prefix s (codes ".nar.") && not (text_eq compression []) && all alphanumeric compression

-- [A-Za-z0-9._-]+ and that end.
unfoldable pub archive_file : Text → Bool
unfolding archive_end
archive_file [] = false
archive_file (c ∷ s) = archive_byte c && (archive_end s || archive_file s)

-- ValidCachePath of worker/cache.go
unfoldable pub valid_cache_path : Text → Bool
unfolding text_eq has_prefix drop_prefix hash_then archive_file
valid_cache_path s =
    text_eq s (codes "nix-cache-info")
    || hash_then 32 (codes ".narinfo") s
    || has_prefix s (codes "nar/") && archive_file (drop_prefix s (codes "nar/"))

-- consumerFile
unfoldable pub consumer_file : Text → Bool
unfolding has_prefix drop_prefix valid_cache_path
consumer_file name =
    has_prefix name (codes "cache/") && valid_cache_path (trim_prefix name (codes "cache/"))

-- The maps `records` and `writer` of publishCatalog, from the files.
unfoldable pub file_records : Dict SnapshotFile → Records × Records → Records × Records
unfolding consumer_file insert
file_records [] maps = maps
file_records ((name, file) ∷ files) (records, writer) =
    let made : CatalogRecord = record no_record { file = some file } in
    file_records files (
      if consumer_file name
      then (insert name made records, writer)
      else (records, insert name made writer))

-- The narinfos, each with its archive.
unfoldable pub narinfo_records : Dict SnapshotFile → Dict Text → Records → Result Records
unfolding narinfo_fields lookup insert
narinfo_records files [] records = ok records
narinfo_records files ((name, text) ∷ narinfos) records = narinfo_fields text >>= λ parsed.
    let archive = get_or files (codes "cache/" ++ field parsed (codes "URL")) no_file in
    let made : CatalogRecord = record (get_or records name no_record) {
      narinfo = text;
      archive = some archive;
    } in
    narinfo_records files narinfos (insert name made records)

-- The references of paths that upstream caches have.
unfoldable pub upstream_records : Dict (Option (List Text)) → Records → Records
unfolding lookup insert
upstream_records [] writer = writer
upstream_records ((path, refs) ∷ upstream) writer =
    let made : CatalogRecord = record (get_or writer path no_record) { references = some refs } in
    upstream_records upstream (insert path made writer)
