-- ===== src/Snapshot/Records.antt =====
-- worker/snapshot.go: a snapshot's maps, when they are valid and closed, and their union.

pub mod Closure
pub mod Exact
pub mod Union
use nix_ci_worker.Base.{
  Text, Dict, List, [], ◌∷◌, ◌++◌, Option, none, some, Bool, true, false, not, ◌&&◌, ◌||◌,
  if◌then◌else◌, all, codes, contains, text_eq, has, has_prefix, lookup, insert, add_member, Result,
  ok, err, ◌>>=◌, ◌>>◌, guard,
}
use nix_ci_worker.Scheduler.Job.{fields}
use nix_ci_worker.Snapshot.Files.{SnapshotFile}
use nix_ci_worker.Snapshot.Paths.{valid_store_path}
use nix_ci_worker.Snapshot.Narinfo.{narinfo_fields, narinfo_key, matching_fields, field, store_dir}
use nix_ci_worker.Snapshot.Index.{equal}

-- The maps of a snapshot. `nil` references are `none`.
pub record Snapshot : Type 0 where
  pub files : Dict SnapshotFile
  pub narinfos : Dict Text
  pub upstream : Dict (Option (List Text))

abbrev pub new_snapshot : Snapshot
new_snapshot = record { files = []; narinfos = []; upstream = [] }

-- What `range` and slices.Equal see of a slice that may be nil.
abbrev pub elements : Option (List Text) → List Text
elements none = []
elements (some refs) = refs

abbrev pub is_some {ℓ} : {A : Type ℓ} → Option A → Bool
is_some none = false
is_some (some a) = true

unfoldable pub validate_upstream : Dict (Option (List Text)) → Result (Unit {0})
unfolding valid_store_path
validate_upstream [] = ok tt
validate_upstream ((path, refs) ∷ rest) = do
  guard (valid_store_path path && is_some refs) "invalid upstream coverage"
  guard (all valid_store_path (elements refs)) "invalid upstream coverage"
  validate_upstream rest

unfoldable pub validate_narinfos : Dict SnapshotFile → Dict Text → Result (Unit {0})
unfolding narinfo_fields narinfo_key text_eq lookup
validate_narinfos files [] = ok tt
validate_narinfos files ((name, value) ∷ rest) = do
  parsed ← narinfo_fields value
  guard
      (text_eq name (narinfo_key (field parsed (codes "StorePath")))
        && has files (codes "cache/" ++ field parsed (codes "URL")))
      "narinfo references an unreachable archive"
  validate_narinfos files rest

-- ValidateRecords
unfoldable pub validate_records : Snapshot → Result (Unit {0})
unfolding validate_upstream validate_narinfos
validate_records s = validate_upstream s.upstream >> validate_narinfos s.files s.narinfos

-- `fields, _ := NarinfoFields(value)`: a nil map when there is an error.
unfoldable pub fields_of : Text → Dict Text
unfolding narinfo_fields
fields_of value = elim (narinfo_fields value) [ ok parsed ↦ parsed | err message ↦ [] ]

-- `fields, _ := NarinfoFields(value)`, and the store path there.
unfoldable pub store_path : Text → Text
unfolding fields_of
store_path value = field (fields_of value) (codes "StorePath")

unfoldable pub add_upstream : Dict (Option (List Text)) → List Text → List Text
unfolding add_member
add_upstream [] paths = paths
add_upstream ((path, refs) ∷ rest) paths = add_upstream rest (add_member path paths)

unfoldable pub add_recorded : Dict Text → List Text → List Text
unfolding add_member store_path
add_recorded [] paths = paths
add_recorded ((name, value) ∷ rest) paths = add_recorded rest (add_member (store_path value) paths)

unfoldable pub check_upstream : List Text → Dict (Option (List Text)) → Result (Unit {0})
unfolding contains
check_upstream paths [] = ok tt
check_upstream paths ((path, refs) ∷ rest) = do
  guard (all (contains paths) (elements refs)) "upstream coverage contains incomplete references"
  check_upstream paths rest

unfoldable pub check_narinfos : List Text → Dict Text → Result (Unit {0})
unfolding contains fields_of fields
check_narinfos paths [] = ok tt
check_narinfos paths ((name, value) ∷ rest) = do
  guard
      (all (λ ref. contains paths (store_dir ++ ref))
        (fields (field (fields_of value) (codes "References"))))
      "cache contains incomplete references"
  check_narinfos paths rest

-- RequireClosed
unfoldable pub require_closed : Snapshot → Result (Unit {0})
unfolding validate_records add_upstream add_recorded check_upstream check_narinfos
require_closed s = do
  validate_records s
  (let paths = add_recorded s.narinfos (add_upstream s.upstream []) in
      check_upstream paths s.upstream >> check_narinfos paths s.narinfos)

-- Contains
unfoldable pub contains_path : Snapshot → Text → Bool
unfolding lookup narinfo_key has_prefix
contains_path s path = has s.upstream path || elim (lookup (narinfo_key path) s.narinfos) [
  | none ↦ false
  | some value ↦ has_prefix value (codes "StorePath: " ++ path ++ 10 ∷ [])
]

-- HasFile
unfoldable pub has_file : Snapshot → Text → Bool
unfolding lookup
has_file s name = has s.files name || has s.narinfos name

-- matchingNarinfos
unfoldable pub matching_narinfos : Text → Text → Result (Unit {0})
unfolding text_eq narinfo_fields matching_fields
matching_narinfos left right = if text_eq left right then ok tt else do
  a ← narinfo_fields left
  b ← narinfo_fields right
  guard (matching_fields a b) "conflicting cache record"

-- The paths that upstream caches of the other snapshot have.
unfoldable pub merge_upstream :
    Dict (Option (List Text)) → Dict (Option (List Text)) → Result (Dict (Option (List Text)))
unfolding lookup insert equal
merge_upstream [] own = ok own
merge_upstream ((path, refs) ∷ rest) own = do
  guard
      (elim (lookup path own) [
        | none ↦ true
        | some existing ↦ equal (elements existing) (elements refs)
      ])
      "conflicting upstream references"
  merge_upstream rest (insert path refs own)

unfoldable pub merge_narinfo : Text → Text → Dict Text → Result (Dict Text)
unfolding lookup insert matching_narinfos
merge_narinfo name value own = elim (lookup name own) [
  | none ↦ ok (insert name value own)
  | some existing ↦ matching_narinfos existing value >> ok own
]

unfoldable pub merge_narinfos : Dict Text → Dict Text → Result (Dict Text)
unfolding merge_narinfo
merge_narinfos [] own = ok own
merge_narinfos ((name, value) ∷ rest) own = merge_narinfo name value own >>= merge_narinfos rest

unfoldable pub merge_files : Dict SnapshotFile → Dict SnapshotFile → Dict SnapshotFile
unfolding has_prefix lookup insert
merge_files [] own = own
merge_files ((name, file) ∷ rest) own = merge_files rest (
    if has_prefix name (codes "cache/")
      && (not (has own name) || has_prefix name (codes "cache/plan/"))
    then insert name file own
    else own)

-- Merge, less the blobs that `reuseCatalogs` keeps. Without an error, the receiver.
unfoldable pub merge : Snapshot → Snapshot → Result Snapshot
unfolding merge_upstream merge_narinfos merge_files
merge s other = do
  upstream ← merge_upstream other.upstream s.upstream
  narinfos ← merge_narinfos other.narinfos s.narinfos
  ok (record { files = merge_files other.files s.files; narinfos = narinfos; upstream = upstream })
