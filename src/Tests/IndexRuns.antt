-- ===== src/Tests/IndexRuns.antt =====
-- The index of worker/snapshot_index.go on two paths of an upstream cache.
use nix_ci_worker.Base.{
  ◌≡◌, ◌↔◌, ◌⊎◌, none, if◌then◌else◌, get_or, refl, keys, sort_by, insert_by, text_le, Text, [],
  ◌∷◌, ◌++◌, some, true, false≢true, codes, text_eq, contains, lookup, insert, has, has_prefix,
  drop_prefix, Result, ok, err, IsOk,
}
use nix_ci_worker.Catalog.{no_file}
use nix_ci_worker.Scheduler.Job.{fields}
use nix_ci_worker.Base.Int.{pos, ◌-ℤ◌}
use nix_ci_worker.Snapshot.Files.{whole_file, validate, digest_pattern, in_blob}
use nix_ci_worker.Snapshot.Paths.{valid_store_path, hashed_name}
use nix_ci_worker.Snapshot.Narinfo.{
  narinfo_fields, lines_from, cut_colon, trim_newline, record_ref, archive_name, parse_line,
  parse_lines, narinfo_key, before_dash, base, base_from, trim_slashes,
}
use nix_ci_worker.Snapshot.Index.{
  SnapshotIndex, Delta, equal, extend_files, extend_path, extend_upstream, extend_records,
  extend_record, add_record, extend,
}
use nix_ci_worker.Snapshot.Index.Select.{select_round, select_from, select_path, select_paths}
use nix_ci_worker.Snapshot.Index.Select.Held.{covered, recorded, archive_of, text_of}
use nix_ci_worker.Snapshot.Index.Select.Rounds.{Reached}
use nix_ci_worker.Snapshot.Index.Select.Exact.{select_paths-Reached}
use nix_ci_worker.Snapshot.Index.Closed.{IsClosed, extend-IsClosed}

abbrev one : Text
one = codes "/nix/store/00000000000000000000000000000000-one"

abbrev two : Text
two = codes "/nix/store/11111111111111111111111111111111-two"

abbrev empty : SnapshotIndex
empty = record { files = []; narinfos = []; upstream = []; paths = [] }

abbrev delta : Delta
delta = record {
  files = [];
  upstream = (one, some (two ∷ [])) ∷ (two, some []) ∷ [];
  narinfos = [];
}

abbrev index_of : Result SnapshotIndex → SnapshotIndex
index_of (ok i) = i
index_of (err e) = empty

accepted : extend empty delta ≡ ok (index_of (extend empty delta))
unfolding extend extend_files extend_upstream extend_path extend_records lookup insert equal text_eq
    valid_store_path hashed_name has_prefix drop_prefix
accepted = refl

empty-IsClosed : IsClosed empty
unfolding lookup contains
empty-IsClosed path ref h = elim (false≢true h) [ ]

extend-IsClosed_example :
    IsClosed (index_of (extend empty delta))
    × ((path : Text)
        → has empty.paths path ≡ true
        → has (index_of (extend empty delta)).paths path ≡ true)
extend-IsClosed_example =
    extend-IsClosed empty (index_of (extend empty delta)) delta empty-IsClosed accepted

abbrev grown : SnapshotIndex
grown = index_of (extend empty delta)

-- The reference of a root is selected with it.
selected_both : keys (select_paths grown (one ∷ [])).upstream ≡ one ∷ two ∷ []
unfolding select_paths select_from select_round select_path sort_by insert_by text_le contains
    extend extend_files extend_upstream extend_path extend_records lookup insert equal text_eq
    valid_store_path hashed_name has_prefix drop_prefix
selected_both = refl

-- A reference that no cache has.
abbrev dangling : Delta
dangling = record { files = []; upstream = (one, some (two ∷ [])) ∷ []; narinfos = [] }

refused : extend empty dangling ≡ err "cache contains incomplete references"
unfolding extend extend_files extend_upstream extend_path extend_records lookup insert equal text_eq
    valid_store_path hashed_name has_prefix drop_prefix
refused = refl

key_of_path : narinfo_key one ≡ codes "cache/00000000000000000000000000000000.narinfo"
unfolding narinfo_key before_dash base base_from trim_slashes text_eq
key_of_path = refl

abbrev newline : Text
newline = 10 ∷ []

abbrev narinfo : Text
narinfo =
    codes "StorePath: /nix/store/00000000000000000000000000000000-one"
    ++ newline
    ++ codes "URL: nar/00112233445566778899aabbccddeeff00112233445566778899aabbccddeeff.nar.zst"
    ++ newline
    ++ codes "Compression: zstd"
    ++ newline
    ++ codes "NarHash: sha256:0"
    ++ newline
    ++ codes "NarSize: 1"
    ++ newline
    ++ codes "References: 11111111111111111111111111111111-two"
    ++ newline
    ++ codes "Sig: k:s"
    ++ newline

narinfo_accepted : IsOk (narinfo_fields narinfo)
unfolding narinfo_fields lines_from cut_colon trim_newline record_ref archive_name parse_line
    parse_lines lookup insert text_eq has_prefix drop_prefix fields
narinfo_accepted = tt

abbrev key : Text
key = codes "cache/00000000000000000000000000000000.narinfo"

abbrev digest : Text
digest = codes "sha256:00112233445566778899aabbccddeeff00112233445566778899aabbccddeeff"

-- A change with a record of the first path.
abbrev recording : Delta
recording = record {
  files =
      (
        codes "cache/nar/00112233445566778899aabbccddeeff00112233445566778899aabbccddeeff.nar.zst",
        whole_file (record { digest = digest; size = pos 9; media_type = [] }),
      )
      ∷ [];
  upstream = (two, some []) ∷ [];
  narinfos = (key, narinfo) ∷ [];
}

abbrev cached : SnapshotIndex
cached = index_of (extend empty recording)

-- The record of a root is selected as it is in the index.
selected_record : lookup key (select_paths cached (one ∷ [])).narinfos ≡ some narinfo
unfolding select_paths select_from select_round select_path sort_by insert_by text_le contains
    extend extend_files extend_upstream extend_path extend_records extend_record add_record validate
    digest_pattern in_blob ◌-ℤ◌ lookup insert equal text_eq valid_store_path hashed_name has_prefix
    drop_prefix narinfo_fields lines_from cut_colon trim_newline record_ref archive_name parse_line
    parse_lines fields narinfo_key before_dash base base_from trim_slashes
selected_record = refl

select_paths-Reached_example :
    ((has (select_paths cached (one ∷ [])).upstream key ≡ true)
      ↔ ((p : Text) × Reached cached (one ∷ []) p × (covered cached p ≡ true) × (p ≡ key)))
    × ((has (select_paths cached (one ∷ [])).narinfos key ≡ true) ↔ (
        (p : Text) × Reached cached (one ∷ []) p
        × (recorded cached p ≡ true)
        × (narinfo_key p ≡ key)))
    × ((has (select_paths cached (one ∷ [])).files key ≡ true) ↔ (
        (p : Text) × Reached cached (one ∷ []) p
        × (recorded cached p ≡ true)
        × (archive_of cached p ≡ key)))
    × (lookup key (select_paths cached (one ∷ [])).upstream ≡ (
        if has (select_paths cached (one ∷ [])).upstream key
        then lookup key cached.upstream
        else none))
    × ((lookup key (select_paths cached (one ∷ [])).narinfos ≡ none)
        ⊎ ((p : Text) × Reached cached (one ∷ []) p
            × (recorded cached p ≡ true)
            × (narinfo_key p ≡ key)
            × (lookup key (select_paths cached (one ∷ [])).narinfos ≡ some (text_of cached p))))
    × (lookup key (select_paths cached (one ∷ [])).files ≡ (
        if has (select_paths cached (one ∷ [])).files key
        then some (get_or cached.files key no_file)
        else none))
select_paths-Reached_example = select_paths-Reached cached (one ∷ []) key
