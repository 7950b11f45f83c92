-- ===== src/Tests/LiveRuns.antt =====
-- worker/live.go on the first publication of a platform.
use nix_ci_worker.Base.{
  ◌≡◌, refl, Text, [], none, true, false, ◌||◌, codes, contains, text_eq, has_prefix, drop_prefix,
  lookup, insert, add_member, ok,
}
use nix_ci_worker.Scheduler.Job.{fields}
use nix_ci_worker.Snapshot.Paths.{valid_store_path, hashed_name}
use nix_ci_worker.Snapshot.Narinfo.{
  narinfo_fields, lines_from, cut_colon, trim_newline, record_ref, archive_name, parse_line,
  parse_lines, narinfo_key, before_dash, base_from,
}
use nix_ci_worker.Catalog.{no_descriptor}
use nix_ci_worker.Snapshot.Records.{
  require_closed, validate_records, validate_upstream, validate_narinfos, fields_of, store_path,
  add_upstream, add_recorded, check_upstream, check_narinfos, contains_path, merge, merge_upstream,
  merge_narinfos, merge_files,
}
use nix_ci_worker.Snapshot.Records.Exact.{IsClosed}
use nix_ci_worker.Live.{
  Metadata, Outside, Publisher, valid_run_id, parse_digits, prepare, publish_live, publish_from,
  update_live, update_from, advance, tag_generation, tag_head, settle_update,
}
use nix_ci_worker.Live.Closed.{prepare-IsClosed}
use nix_ci_worker.Tests.SnapshotRuns.{recorded, upstream, merged}

abbrev stage : Metadata
stage = record {
  kind = codes "stage";
  binding_system = none;
  terminal = false;
  system = [];
  run = [];
  attempt = 0;
  publication = 0;
}

abbrev outside : Outside
outside = record {
  upload_result = λ m. ok no_descriptor;
  build = λ s m. ok (codes "sha256:1");
  put_manifest = λ tag digest. ok digest;
}

abbrev fresh : Publisher
fresh = record {
  snapshot = recorded;
  metadata = stage;
  system = codes "x86_64-linux";
  run = codes "7";
  attempt = 1;
  published = 0;
  failed = none;
  dirty = true;
  last_published = none;
}

prepared : prepare outside fresh upstream stage false ≡ ok (merged (merge recorded upstream))
unfolding prepare valid_run_id parse_digits merge merge_upstream merge_narinfos merge_files lookup
    insert require_closed validate_records validate_upstream validate_narinfos fields_of store_path
    add_upstream add_recorded check_upstream check_narinfos add_member contains text_eq
    valid_store_path hashed_name narinfo_fields lines_from cut_colon trim_newline record_ref
    archive_name parse_line parse_lines narinfo_key before_dash base_from has_prefix drop_prefix
    fields
prepared = refl

tagged : (publish_live outside fresh upstream stage false 0 []).publisher.published ≡ 1
unfolding publish_live publish_from update_live update_from advance tag_generation tag_head
    settle_update prepare valid_run_id parse_digits merge merge_upstream merge_narinfos merge_files
    lookup insert require_closed validate_records validate_upstream validate_narinfos fields_of
    store_path add_upstream add_recorded check_upstream check_narinfos add_member contains text_eq
    valid_store_path hashed_name narinfo_fields lines_from cut_colon trim_newline record_ref
    archive_name parse_line parse_lines narinfo_key before_dash base_from has_prefix drop_prefix
    fields
tagged = refl

prepare-IsClosed_example :
    IsClosed (merged (merge recorded upstream))
    × ((path : Text)
        → valid_store_path path ≡ true
        → contains_path (merged (merge recorded upstream)) path
          ≡ (contains_path recorded path || contains_path upstream path))
unfolding contains
prepare-IsClosed_example =
    prepare-IsClosed outside fresh upstream stage false (merged (merge recorded upstream)) prepared
      (refl, tt) tt tt
