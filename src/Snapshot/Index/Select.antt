-- ===== src/Snapshot/Index/Select.antt =====
-- worker/snapshot_index.go: selectPaths, the part of an index that some paths need.
pub mod Held
pub mod Rounds
pub mod Exact
use nix_ci_worker.Base.{
  ℕ, zero, suc, ◌+◌, Text, Dict, List, [], ◌∷◌, none, some, length, contains, text_eq, text_le,
  sort_by, if◌then◌else◌, get_or, lookup, insert,
}
use nix_ci_worker.Snapshot.Files.{SnapshotFile}
use nix_ci_worker.Snapshot.Narinfo.{narinfo_key}
use nix_ci_worker.Snapshot.Index.{IndexedPath, SnapshotIndex}
use nix_ci_worker.Catalog.{no_file}

-- The set `seen` and the maps of `selected`.
pub record Selection : Type 0 where
  pub seen : List Text
  pub files : Dict SnapshotFile
  pub narinfos : Dict Text
  pub upstream : Dict (List Text)

-- append(pending, refs...), where `pending` has its last element first.
abbrev pub push : List Text → List Text → List Text
push [] pending = pending
push (r ∷ refs) pending = push refs (r ∷ pending)

-- What is selected for a path of the index.
unfoldable pub select_path : SnapshotIndex → Text → IndexedPath → Selection → Selection
unfolding lookup insert text_eq narinfo_key
select_path i path r st = record st {
  upstream = elim (lookup path i.upstream) [
    | none ↦ st.upstream
    | some refs ↦ insert path refs st.upstream
  ];
  narinfos =
      if text_eq r.text [] then st.narinfos else insert (narinfo_key path) r.text st.narinfos;
  files =
      if text_eq r.text []
      then st.files
      else insert r.archive (get_or i.files r.archive no_file) st.files;
}

-- One round, for the path that was taken from `pending`.
unfoldable pub select_round : SnapshotIndex → Text → List Text → Selection → List Text × Selection
unfolding contains lookup select_path
select_round i path pending st =
    let marked = record st { seen = path ∷ st.seen } in
    if contains st.seen path then (pending, st) else elim (lookup path i.paths) [
      | none ↦ (pending, marked)
      | some r ↦ (push r.refs pending, select_path i path r marked)
    ]

unfoldable pub select_from : SnapshotIndex → ℕ → List Text → Selection → Selection
unfolding select_round
select_from i zero pending st = st
select_from i (suc rounds) [] st = st
select_from i (suc rounds) (path ∷ pending) st =
    let next = select_round i path pending st in select_from i rounds next.0 next.1

-- All references of the index, each of which is pushed once at most.
abbrev pub all_refs : Dict IndexedPath → ℕ
all_refs [] = 0
all_refs ((path, r) ∷ paths) = length r.refs + all_refs paths

unfoldable pub select_paths : SnapshotIndex → List Text → Selection
unfolding select_from sort_by text_le
select_paths i roots =
    select_from i (length (sort_by text_le roots) + all_refs i.paths)
      (push (sort_by text_le roots) [])
      (record { seen = []; files = []; narinfos = []; upstream = [] })
