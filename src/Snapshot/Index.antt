-- ===== src/Snapshot/Index.antt =====
-- worker/snapshot_index.go: an index of records that is always closed under references.
pub mod Closed
pub mod Select
use nix_ci_worker.Base.{
  ◌==◌, Text, Dict, List, [], ◌∷◌, ◌++◌, Option, none, some, Bool, true, false, not, ◌&&◌, ◌||◌,
  if◌then◌else◌, all, codes, text_eq, has, get_or, lookup, insert, map, Result, ok, err, ◌>>=◌,
  ◌>>◌, guard,
}
use nix_ci_worker.Scheduler.Job.{fields}
use nix_ci_worker.Snapshot.Files.{SnapshotFile, validate}
use nix_ci_worker.Snapshot.Paths.{valid_store_path}
use nix_ci_worker.Snapshot.Narinfo.{narinfo_fields, narinfo_key, matching_fields, field, store_dir}

pub record IndexedPath : Type 0 where
  pub text : Text
  pub archive : Text
  pub refs : List Text

-- The view of the index and its paths. In a change, `nil` references are `none`.
pub record SnapshotIndex : Type 0 where
  pub files : Dict SnapshotFile
  pub narinfos : Dict Text
  pub upstream : Dict (List Text)
  pub paths : Dict IndexedPath

pub record Delta : Type 0 where
  pub files : Dict SnapshotFile
  pub upstream : Dict (Option (List Text))
  pub narinfos : Dict Text

-- slices.Equal
unfoldable pub equal : List Text → List Text → Bool
unfolding text_eq
equal [] [] = true
equal [] (y ∷ ys) = false
equal (x ∷ xs) [] = false
equal (x ∷ xs) (y ∷ ys) = text_eq x y && equal xs ys

-- The loop over the changed files.
unfoldable pub extend_files : Dict SnapshotFile → SnapshotIndex → Result SnapshotIndex
unfolding lookup insert validate
extend_files [] i = ok i
extend_files ((name, file) ∷ fs) i = do
  j ←
      (if has i.files name
        then ok i
        else validate file >> ok (record i { files = insert name file i.files }))
  extend_files fs j

-- The references of a path that is there are others than these.
abbrev pub differs : Option IndexedPath → List Text → Bool
differs previous refs = elim previous [ none ↦ false | some p ↦ not (equal p.refs refs) ]

-- One path that upstream caches have; the paths that change are put before the others.
unfoldable pub extend_path :
    Text → List Text → SnapshotIndex × List Text → Result (SnapshotIndex × List Text)
unfolding lookup insert valid_store_path equal
extend_path path refs (i, changed) =
    if differs (lookup path i.paths) refs
    then err "conflicting cached and upstream references"
    else if has i.upstream path
    then ok (i, changed)
    else if not (all valid_store_path refs)
    then err "invalid upstream coverage"
    else ok (
      record i {
        upstream = insert path refs i.upstream;
        paths =
            if has i.paths path
            then i.paths
            else insert path (record { text = []; archive = []; refs = refs }) i.paths;
      },
      path ∷ changed,
    )

unfoldable pub extend_upstream :
    Dict (Option (List Text)) → SnapshotIndex × List Text → Result (SnapshotIndex × List Text)
unfolding extend_path valid_store_path
extend_upstream [] s = ok s
extend_upstream ((path, none) ∷ us) s = err "invalid upstream coverage"
extend_upstream ((path, some refs) ∷ us) s =
    guard (valid_store_path path) "invalid upstream coverage"
    >> (extend_path path refs s >>= extend_upstream us)

-- The references of a record, as paths.
abbrev pub references : Dict Text → List Text
references m = map (λ r. store_dir ++ r) (fields (field m (codes "References")))

-- A record that is new: it is put into the view and the paths.
unfoldable pub add_record :
    Text → Text → Dict Text → SnapshotIndex × List Text → Result (SnapshotIndex × List Text)
unfolding lookup insert equal fields
add_record name text m (i, changed) =
    let path = field m (codes "StorePath") in
    let refs = references m in
    if elim (lookup path i.upstream) [ none ↦ false | some u ↦ not (equal u refs) ]
    then err "conflicting cached and upstream references"
    else ok (
      record i {
        narinfos = insert name text i.narinfos;
        paths =
            insert path
              (record {
                text = text;
                archive = codes "cache/" ++ field m (codes "URL");
                refs = refs;
              })
              i.paths;
      },
      path ∷ changed,
    )

-- A record that is there may be replaced by one that matches it only, and stays.
unfoldable pub matches_old : Text → Dict Text → Result (Unit {0})
unfolding narinfo_fields matching_fields
matches_old old m =
    narinfo_fields old >>= λ previous. guard (matching_fields previous m) "conflicting cache record"

-- The archive is there, and the name is that of the path.
abbrev pub reachable : Text → Dict Text → SnapshotIndex → Bool
reachable name m i =
    has i.files (codes "cache/" ++ field m (codes "URL"))
    && text_eq name (narinfo_key (field m (codes "StorePath")))

-- One record of the change.
unfoldable pub extend_record :
    Text → Text → SnapshotIndex × List Text → Result (SnapshotIndex × List Text)
unfolding lookup text_eq narinfo_fields narinfo_key matches_old add_record
extend_record name text (i, changed) =
    let old = get_or i.narinfos name [] in
    if elim (lookup name i.narinfos) [ none ↦ false | some t ↦ text_eq t text ]
    then ok (i, changed)
    else narinfo_fields text >>= λ m.
        guard (reachable name m i) "narinfo references an unreachable archive"
        >> (if text_eq old []
            then add_record name text m (i, changed)
            else matches_old old m >> ok (i, changed))

unfoldable pub extend_records :
    Dict Text → SnapshotIndex × List Text → Result (SnapshotIndex × List Text)
unfolding extend_record
extend_records [] s = ok s
extend_records ((name, text) ∷ ns) s = extend_record name text s >>= extend_records ns

abbrev pub refs_of : Dict IndexedPath → Text → List Text
refs_of paths path = elim (lookup path paths) [ none ↦ [] | some p ↦ p.refs ]

unfoldable pub extend : SnapshotIndex → Delta → Result SnapshotIndex
unfolding extend_files extend_upstream extend_records lookup
extend i delta = do
  j ← extend_files delta.files i
  k ← extend_upstream delta.upstream (j, [])
  l ← extend_records delta.narinfos k
  guard (all (λ path. all (has l.0.paths) (refs_of l.0.paths path)) l.1)
      "cache contains incomplete references"
  ok l.0

abbrev pub empty_index : SnapshotIndex
empty_index = record { files = []; narinfos = []; upstream = []; paths = [] }

-- newSnapshotIndex
unfoldable pub new_snapshot_index : Delta → Result SnapshotIndex
unfolding extend
new_snapshot_index snapshot = extend empty_index snapshot
