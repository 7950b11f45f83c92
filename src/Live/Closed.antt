-- ===== src/Live/Closed.antt =====
-- worker/live.go: what an update publishes is closed and has the paths of both snapshots.
use nix_ci_worker.Base.{
  ◌≡◌, ap, subst, inl, inr, Text, Dict, List, [], ◌∷◌, Option, Bool, true, not, ◌&&◌, ◌||◌, ltb,
  contains, insert, insert-IsUnique, keys, lookup, IsUnique, ok, ok_eq, ok_parts, passed,
  Bool-cases, Option-cases,
}
use nix_ci_worker.Snapshot.Files.{SnapshotFile, whole_file}
use nix_ci_worker.Snapshot.Paths.{valid_store_path}
use nix_ci_worker.Snapshot.Records.{
  Snapshot, merge, merge_upstream, merge_narinfo, merge_narinfos, matching_narinfos, require_closed,
  contains_path,
}
use nix_ci_worker.Snapshot.Records.Exact.{IsClosed, require_closed_exact}
use nix_ci_worker.Snapshot.Records.Union.{merge-contains_path}
use nix_ci_worker.Live.{
  Metadata, Outside, Publisher, bound_system, prepare, store_result, validate_result, result_file,
  valid_run_id, systems,
}

merge_upstream-IsUnique :
    (new own m : Dict (Option (List Text)))
    → merge_upstream new own ≡ ok m
    → IsUnique (keys own)
    → IsUnique (keys m)
unfolding merge_upstream
merge_upstream-IsUnique [] own m h u =
    subst (λ (x : Dict (Option (List Text))). IsUnique (keys x)) (ok_eq own m h) u
merge_upstream-IsUnique ((path, refs) ∷ new) own m h u =
    let (agrees, rest) =
      passed _ "conflicting upstream references" (merge_upstream new (insert path refs own)) h in
    merge_upstream-IsUnique new (insert path refs own) m rest (insert-IsUnique path refs own u)

merge_narinfo-IsUnique :
    (name value : Text) (own m : Dict Text)
    → merge_narinfo name value own ≡ ok m
    → IsUnique (keys own)
    → IsUnique (keys m)
unfolding merge_narinfo
merge_narinfo-IsUnique name value own m h u = elim (Option-cases (lookup name own)) [
  | inl e ↦
      subst (λ (x : Dict Text). IsUnique (keys x))
        (ok_eq (insert name value own) m (rw (e, merge_narinfo) at h))
        (insert-IsUnique name value own u)
  | inr (existing, e) ↦
      let (t, agree, last) =
        ok_parts (matching_narinfos existing value) (λ x. ok own) (rw (e, merge_narinfo) at h) in
      subst (λ (x : Dict Text). IsUnique (keys x)) (ok_eq own m last) u
]

merge_narinfos-IsUnique :
    (new own m : Dict Text)
    → merge_narinfos new own ≡ ok m
    → IsUnique (keys own)
    → IsUnique (keys m)
unfolding merge_narinfos
merge_narinfos-IsUnique [] own m h u =
    subst (λ (x : Dict Text). IsUnique (keys x)) (ok_eq own m h) u
merge_narinfos-IsUnique ((name, value) ∷ new) own m h u =
    let (next, first, rest) = ok_parts (merge_narinfo name value own) (merge_narinfos new) h in
    merge_narinfos-IsUnique new next m rest (merge_narinfo-IsUnique name value own next first u)

merge-IsUnique :
    (s other m : Snapshot)
    → merge s other ≡ ok m
    → IsUnique (keys s.narinfos)
    → IsUnique (keys s.upstream)
    → IsUnique (keys m.narinfos) × IsUnique (keys m.upstream)
unfolding merge
merge-IsUnique s other m h u v =
    let (up, h1, rest) = ok_parts (merge_upstream other.upstream s.upstream) _ h in
    let (nar, h2, last) = ok_parts (merge_narinfos other.narinfos s.narinfos) _ rest in
    let whole = ok_eq _ m last in
    (
      subst (λ (x : Dict Text). IsUnique (keys x)) (ap (λ (x : Snapshot). x.narinfos) whole)
          (merge_narinfos-IsUnique other.narinfos s.narinfos nar h2 u),
      subst (λ (x : Dict (Option (List Text))). IsUnique (keys x))
          (ap (λ (x : Snapshot). x.upstream) whole)
          (merge_upstream-IsUnique other.upstream s.upstream up h1 v),
    )

-- A further file changes neither the paths nor their references.
abbrev Holds : Snapshot → Snapshot → Snapshot → Type 0
Holds s delta t =
    IsClosed t
    × ((path : Text)
        → valid_store_path path ≡ true
        → contains_path t path ≡ (contains_path s path || contains_path delta path))

with_files :
    (s delta t : Snapshot) (files : Dict SnapshotFile)
    → Holds s delta t
    → Holds s delta (record t { files = files })
unfolding contains_path
with_files s delta t files h = h

stored_result :
    (outside : Outside) (s delta t r : Snapshot) (m : Metadata)
    → store_result outside t m ≡ ok r
    → Holds s delta t
    → Holds s delta r
unfolding store_result
stored_result outside s delta t r m h known =
    let (x, valid, h1) = ok_parts (validate_result m m.run (bound_system m) m.attempt) _ h in
    let (name, named, h2) = ok_parts (result_file m.run (bound_system m) m.attempt) _ h1 in
    let (blob, sent, last) = ok_parts (outside.upload_result m) _ h2 in
    subst (Holds s delta) (ok_eq _ r last)
      (with_files s delta t (insert name (whole_file blob) t.files) known)

-- A snapshot that an update is about to publish is closed, each reference of each path being a path that Contains finds, and it has the store paths of the published snapshot and of the new one, and no others.
pub prepare-IsClosed :
    (outside : Outside) (p : Publisher) (delta : Snapshot) (m : Metadata) (terminal : Bool)
    (r : Snapshot)
    → prepare outside p delta m terminal ≡ ok r
    → IsUnique (keys p.snapshot.narinfos)
    → IsUnique (keys p.snapshot.upstream)
    → IsUnique (keys delta.narinfos)
    → IsClosed r
      × ((path : Text)
          → valid_store_path path ≡ true
          → contains_path r path ≡ (contains_path p.snapshot path || contains_path delta path))
unfolding prepare
prepare-IsClosed outside p delta m terminal r h u v w =
    let (named, h1) =
      passed (contains systems p.system && valid_run_id p.run && not (ltb p.attempt 1))
        "invalid cache publication identity" _ h in
    let (t, merged, h2) = ok_parts (merge p.snapshot delta) _ h1 in
    let (x, closed, h3) = ok_parts (require_closed t) _ h2 in
    let (un, uu) = merge-IsUnique p.snapshot delta t merged u v in
    let known : Holds p.snapshot delta t = (
      (((require_closed_exact t un uu).0 closed).1),
      λ path valid. merge-contains_path p.snapshot delta t path merged w valid,
    ) in
    elim (Bool-cases terminal) [
      | inr e ↦ subst (Holds p.snapshot delta) (ok_eq t r (rw e at h3)) known
      | inl e ↦
          let (y, valid, h4) =
            ok_parts (validate_result m p.run p.system p.attempt) (λ z. store_result outside t m)
              (rw e at h3) in
          stored_result outside p.snapshot delta t r m h4 known
    ]
