-- ===== src/Tests/SnapshotRuns.antt =====
-- worker/snapshot.go on a snapshot of one record and one path that an upstream cache has.
use nix_ci_worker.Base.{
  ◌≡◌, refl, ◌↔◌, Text, [], ◌∷◌, ◌++◌, some, ◌||◌, codes, text_eq, contains, has_prefix,
  drop_prefix, lookup, insert, add_member, Result, ok, err,
}
use nix_ci_worker.Scheduler.Job.{fields}
use nix_ci_worker.Snapshot.Paths.{valid_store_path, hashed_name}
use nix_ci_worker.Snapshot.Narinfo.{
  narinfo_fields, lines_from, cut_colon, trim_newline, record_ref, archive_name, parse_line,
  parse_lines, narinfo_key, before_dash, base_from,
}
use nix_ci_worker.Catalog.{no_file}
use nix_ci_worker.Snapshot.Records.{
  Snapshot, require_closed, validate_records, validate_upstream, validate_narinfos, fields_of,
  store_path, add_upstream, add_recorded, check_upstream, check_narinfos, contains_path, merge,
  merge_upstream, merge_narinfos, merge_files, new_snapshot,
}
use nix_ci_worker.Snapshot.Records.Exact.{IsClosed, require_closed_exact}
use nix_ci_worker.Snapshot.Records.Union.{merge-contains_path}

abbrev pub two : Text
two = codes "/nix/store/11111111111111111111111111111111-two"

abbrev newline : Text
newline = 10 ∷ []

abbrev narinfo : Text
narinfo =
    codes "StorePath: /nix/store/00000000000000000000000000000000-one"
    ++ newline
    ++ codes "URL: nar/00112233445566778899aabbccddeeff00112233445566778899aabbccddeeff.nar.zst"
    ++ newline
    ++ codes "Compression: zstd"
    ++ newline
    ++ codes "NarHash: sha256:0"
    ++ newline
    ++ codes "NarSize: 1"
    ++ newline
    ++ codes "References: 11111111111111111111111111111111-two"
    ++ newline
    ++ codes "Sig: k:s"
    ++ newline

abbrev key : Text
key = codes "cache/00000000000000000000000000000000.narinfo"

abbrev pub recorded : Snapshot
recorded = record {
  files =
      (
        codes "cache/nar/00112233445566778899aabbccddeeff00112233445566778899aabbccddeeff.nar.zst",
        no_file,
      )
      ∷ [];
  narinfos = (key, narinfo) ∷ [];
  upstream = [];
}

abbrev pub upstream : Snapshot
upstream = record { files = []; narinfos = []; upstream = (two, some []) ∷ [] }

abbrev pub merged : Result Snapshot → Snapshot
merged (ok s) = s
merged (err e) = new_snapshot

union : merge recorded upstream ≡ ok (merged (merge recorded upstream))
unfolding merge merge_upstream merge_narinfos merge_files lookup insert
union = refl

-- The reference of the record is a path of the union, but not of the first snapshot alone.
union_closed : require_closed (merged (merge recorded upstream)) ≡ ok tt
unfolding merge merge_upstream merge_narinfos merge_files lookup insert require_closed
    validate_records validate_upstream validate_narinfos fields_of store_path add_upstream
    add_recorded check_upstream check_narinfos add_member contains text_eq valid_store_path
    hashed_name narinfo_fields lines_from cut_colon trim_newline record_ref archive_name parse_line
    parse_lines narinfo_key before_dash base_from has_prefix drop_prefix fields
union_closed = refl

first_open : require_closed recorded ≡ err "cache contains incomplete references"
unfolding lookup insert require_closed validate_records validate_upstream validate_narinfos
    fields_of store_path add_upstream add_recorded check_upstream check_narinfos add_member contains
    text_eq valid_store_path hashed_name narinfo_fields lines_from cut_colon trim_newline record_ref
    archive_name parse_line parse_lines narinfo_key before_dash base_from has_prefix drop_prefix
    fields
first_open = refl

require_closed_exact_example : (require_closed (merged (merge recorded upstream)) ≡ ok tt) ↔ (
    (validate_records (merged (merge recorded upstream)) ≡ ok tt)
    × IsClosed (merged (merge recorded upstream)))
unfolding merge merge_upstream merge_narinfos merge_files lookup insert contains
require_closed_exact_example =
    require_closed_exact (merged (merge recorded upstream)) (refl, tt) (refl, tt)

merge-contains_path_example :
    contains_path (merged (merge recorded upstream)) two
    ≡ (contains_path recorded two || contains_path upstream two)
unfolding valid_store_path hashed_name has_prefix drop_prefix
merge-contains_path_example =
    merge-contains_path recorded upstream (merged (merge recorded upstream)) two union tt refl
