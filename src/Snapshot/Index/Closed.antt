-- ===== src/Snapshot/Index/Closed.antt =====
-- Extending an index keeps it closed under references.
use nix_ci_worker.Base.{
  ◌≡◌, ◌⊎◌, ◌∙◌, refl, sym, ap, subst, arith, String, Text, Dict, List, [], ◌∷◌, ◌++◌, Option, none,
  some, true, false, if◌then◌else◌, all, all-contains, codes, text_eq, contains, has, get_or,
  lookup, insert, lookup-insert, ok, err, ok_eq, ok_parts, passed, guarded, ◌>>◌, Bool-cases,
  Option-cases, inl, inr,
}
use nix_ci_worker.Snapshot.Files.{SnapshotFile, validate}
use nix_ci_worker.Snapshot.Paths.{valid_store_path}
use nix_ci_worker.Snapshot.Narinfo.{narinfo_fields, field}
use nix_ci_worker.Snapshot.Index.{
  IndexedPath, SnapshotIndex, Delta, extend_files, differs, equal, extend_path, extend_upstream,
  references, add_record, matches_old, reachable, extend_record, extend_records, refs_of, extend,
}

-- Every reference of a path is a path of the index.
abbrev pub IsClosed : SnapshotIndex → Type 0
IsClosed i = (path ref : Text) → contains (refs_of i.paths path) ref ≡ true → has i.paths ref ≡ true

abbrev State : Type 0
State = SnapshotIndex × List Text

abbrev refs_at : Option IndexedPath → List Text
refs_at o = elim o [ none ↦ [] | some p ↦ p.refs ]

-- A path of the new index has changed or is as it was, and no path is lost.
record Grown (i : SnapshotIndex) (s : State) : Type 0 where
  kept : (p : Text) → (contains s.1 p ≡ true) ⊎ (lookup p s.0.paths ≡ lookup p i.paths)
  more : (p : Text) → has i.paths p ≡ true → has s.0.paths p ≡ true

no_state : (e : String) (t : State) → err e ≡ ok t → ⊥
no_state e t h = cc

later_in :
    (x : Text) (xs : List Text) (p : Text) → contains xs p ≡ true → contains (x ∷ xs) p ≡ true
unfolding contains
later_in x xs p h = ground (arith, h)

module _ (i : SnapshotIndex) where
  -- A path is put into the index and among those that have changed.
  Grown-put :
      (j k : SnapshotIndex) (changed : List Text) (path : Text) (x : IndexedPath)
      → Grown i (j, changed)
      → k.paths ≡ insert path x j.paths
      → Grown i (k, path ∷ changed)
  unfolding contains
  Grown-put j k changed path x g e = record {
    kept = λ p. elim (Bool-cases (text_eq path p)) [
      | inl f ↦ inl (ground (arith, f))
      | inr f ↦ elim (g.kept p) [
        | inl h ↦ inl (ground (arith, h))
        | inr h ↦ inr (ap (lookup p) e ∙ ground (arith, f, h, lookup-insert path p x j.paths))
      ]
    ];
    more = λ p h. ap (λ m. has m p) e ∙ ground (arith, lookup-insert path p x j.paths, g.more p h);
  }

  -- Nothing but the list and other parts of the index have changed.
  Grown-same :
      (j k : SnapshotIndex) (changed more : List Text)
      → Grown i (j, changed)
      → k.paths ≡ j.paths
      → ((p : Text) → contains changed p ≡ true → contains more p ≡ true)
      → Grown i (k, more)
  Grown-same j k changed more g e h = record {
    kept = λ p. elim (g.kept p) [ inl c ↦ inl (h p c) | inr l ↦ inr (ap (lookup p) e ∙ l) ];
    more = λ p l. ap (λ m. has m p) e ∙ g.more p l;
  }

  extend_files-paths :
      (fs : Dict SnapshotFile) (j k : SnapshotIndex) → extend_files fs j ≡ ok k → k.paths ≡ j.paths
  unfolding extend_files
  extend_files-paths [] j k h = ap (λ x. x.paths) (sym (ok_eq j k h))
  extend_files-paths ((name, file) ∷ fs) j k h = elim (Bool-cases (has j.files name)) [
    | inl e ↦ extend_files-paths fs j k (rw (e, extend_files, if◌then◌else◌) at h)
    | inr e ↦
        let (next, found, rest) =
          ok_parts (validate file >> ok (record j { files = insert name file j.files })) _
            (rw (e, extend_files, if◌then◌else◌) at h) in
        let (u, valid, same) = ok_parts (validate file) _ found in
        extend_files-paths fs next k rest ∙ ap (λ x. x.paths) (sym (ok_eq _ next same))
  ]

  extend_path-Grown :
      (path : Text) (refs : List Text) (s t : State)
      → Grown i s
      → extend_path path refs s ≡ ok t
      → Grown i t
  unfolding extend_path
  extend_path-Grown path refs (j, changed) t g h =
      elim (Bool-cases (differs (lookup path j.paths) refs)) [
        | inl e ↦ absurd (no_state _ t (rw (e, extend_path, if◌then◌else◌) at h))
        | inr e ↦ elim (Bool-cases (has j.upstream path)) [
          | inl f ↦
              subst (Grown i) (ok_eq (j, changed) t (rw (e, f, extend_path, if◌then◌else◌) at h)) g
          | inr f ↦ elim (Bool-cases (all valid_store_path refs)) [
            | inr k ↦ absurd (no_state _ t (rw (e, f, k, extend_path, if◌then◌else◌) at h))
            | inl k ↦ elim (Bool-cases (has j.paths path)) [
              | inl l ↦
                  subst (Grown i) (ok_eq _ t (rw (e, f, k, l, extend_path, if◌then◌else◌) at h)) (
                    Grown-same j (record j { upstream = insert path refs j.upstream }) changed
                      (path ∷ changed) g refl (λ p c. later_in path changed p c))
              | inr l ↦
                  subst (Grown i) (ok_eq _ t (rw (e, f, k, l, extend_path, if◌then◌else◌) at h)) (
                    Grown-put j
                      (record j {
                        upstream = insert path refs j.upstream;
                        paths =
                            insert path (record { text = []; archive = []; refs = refs }) j.paths;
                      })
                      changed path (record { text = []; archive = []; refs = refs }) g refl)
            ]
          ]
        ]
      ]

  extend_upstream-Grown :
      (us : Dict (Option (List Text))) (s t : State)
      → Grown i s
      → extend_upstream us s ≡ ok t
      → Grown i t
  unfolding extend_upstream
  extend_upstream-Grown [] s t g h = subst (Grown i) (ok_eq s t h) g
  extend_upstream-Grown ((path, none) ∷ us) s t g h = absurd (no_state _ t h)
  extend_upstream-Grown ((path, some refs) ∷ us) s t g h =
      let (valid, rest) = passed (valid_store_path path) "invalid upstream coverage" _ h in
      let (next, found, last) = ok_parts (extend_path path refs s) (extend_upstream us) rest in
      extend_upstream-Grown us next t (extend_path-Grown path refs s next g found) last

  add_record-Grown :
      (name text : Text) (m : Dict Text) (s t : State)
      → Grown i s
      → add_record name text m s ≡ ok t
      → Grown i t
  unfolding add_record
  add_record-Grown name text m (j, changed) t g h =
      let path = field m (codes "StorePath") in
      let x : IndexedPath = record {
        text = text;
        archive = codes "cache/" ++ field m (codes "URL");
        refs = references m;
      } in
      let next : SnapshotIndex = record j {
        narinfos = insert name text j.narinfos;
        paths = insert path x j.paths;
      } in
      let put = Grown-put j next changed path x g refl in
      elim (Option-cases (lookup path j.upstream)) [
        | inl e ↦
            subst (Grown i)
              (ok_eq (next, path ∷ changed) t (rw (e, add_record, if◌then◌else◌) at h)) put
        | inr (u, e) ↦ elim (Bool-cases (equal u (references m))) [
          | inl f ↦
              subst (Grown i)
                (ok_eq (next, path ∷ changed) t (rw (e, f, add_record, if◌then◌else◌) at h)) put
          | inr f ↦ absurd (no_state _ t (rw (e, f, add_record, if◌then◌else◌) at h))
        ]
      ]

  new_record-Grown :
      (name text : Text) (m : Dict Text) (s t : State)
      → Grown i s
      → (if text_eq (get_or s.0.narinfos name []) []
          then add_record name text m s
          else matches_old (get_or s.0.narinfos name []) m >> ok s)
        ≡ ok t
      → Grown i t
  new_record-Grown name text m s t g h =
      elim (Bool-cases (text_eq (get_or s.0.narinfos name []) [])) [
        | inl e ↦ add_record-Grown name text m s t g (rw (e, if◌then◌else◌) at h)
        | inr e ↦
            let (u, checked, same) =
              ok_parts (matches_old (get_or s.0.narinfos name []) m) _
                (rw (e, if◌then◌else◌) at h) in
            subst (Grown i) (ok_eq s t same) g
      ]

  extend_record-Grown :
      (name text : Text) (s t : State) → Grown i s → extend_record name text s ≡ ok t → Grown i t
  unfolding extend_record
  extend_record-Grown name text (j, changed) t g h =
      elim (Bool-cases (elim (lookup name j.narinfos) [ none ↦ false | some x ↦ text_eq x text ])) [
        | inl e ↦
            subst (Grown i) (ok_eq (j, changed) t (rw (e, extend_record, if◌then◌else◌) at h)) g
        | inr e ↦
            let (m, parsed, rest) =
              ok_parts (narinfo_fields text) _ (rw (e, extend_record, if◌then◌else◌) at h) in
            let (there, last) =
              passed (reachable name m j) "narinfo references an unreachable archive" _ rest in
            new_record-Grown name text m (j, changed) t g last
      ]

  extend_records-Grown :
      (ns : Dict Text) (s t : State) → Grown i s → extend_records ns s ≡ ok t → Grown i t
  unfolding extend_records
  extend_records-Grown [] s t g h = subst (Grown i) (ok_eq s t h) g
  extend_records-Grown ((name, text) ∷ ns) s t g h =
      let (next, found, last) = ok_parts (extend_record name text s) (extend_records ns) h in
      extend_records-Grown ns next t (extend_record-Grown name text s next g found) last

Grown-IsClosed :
    (i : SnapshotIndex) (s : State)
    → IsClosed i
    → Grown i s
    → all (λ path. all (has s.0.paths) (refs_of s.0.paths path)) s.1 ≡ true
    → IsClosed s.0
Grown-IsClosed i s closed g whole path ref h = elim (g.kept path) [
  | inl changed ↦
      all-contains (has s.0.paths) (refs_of s.0.paths path) ref
        (all-contains (λ p. all (has s.0.paths) (refs_of s.0.paths p)) s.1 path whole changed) h
  | inr old ↦ g.more ref (closed path ref (ap (λ o. contains (refs_at o) ref) (sym old) ∙ h))
]

-- An index that is closed is closed after every change that it accepts: each reference of each of its paths is one of its paths; and it loses no path.
pub extend-IsClosed :
    (i j : SnapshotIndex) (delta : Delta)
    → IsClosed i
    → extend i delta ≡ ok j
    → IsClosed j × ((path : Text) → has i.paths path ≡ true → has j.paths path ≡ true)
unfolding extend
extend-IsClosed i j delta closed h =
    let (a, files, b) = ok_parts (extend_files delta.files i) _ h in
    let (c, upstream, d) = ok_parts (extend_upstream delta.upstream (a, [])) _ b in
    let (e, records, f) = ok_parts (extend_records delta.narinfos c) _ d in
    let (whole, same) =
      guarded (all (λ path. all (has e.0.paths) (refs_of e.0.paths path)) e.1)
        "cache contains incomplete references" e.0 f in
    let first : Grown i (a, []) = record {
      kept = λ p. inr (ap (lookup p) (extend_files-paths i delta.files i a files));
      more = λ p k. ap (λ m. has m p) (extend_files-paths i delta.files i a files) ∙ k;
    } in
    let g =
      extend_records-Grown i delta.narinfos c e
        (extend_upstream-Grown i delta.upstream (a, []) c first upstream) records in
    subst (λ k. IsClosed k × ((path : Text) → has i.paths path ≡ true → has k.paths path ≡ true))
      same (Grown-IsClosed i e closed g whole, g.more)
