-- ===== src/Snapshot/Index/Select/Held.antt =====
-- worker/snapshot_index.go: the maps that selectPaths makes, against the paths that it has seen.
use nix_ci_worker.Base.{
  inl, inr, subst, Bool-cases, List, contains, contains_self, contains_later, lookup-insert,
  some_eq, text_eq_iff, ◌≡◌, refl, sym, ap, ◌∙◌, Text, Dict, [], ◌∷◌, Option, none, some, Bool,
  true, false, not, ◌&&◌, ◌||◌, if◌then◌else◌, any, text_eq, get_or, has, has-insert, lookup,
  insert,
}
use nix_ci_worker.Snapshot.Files.{SnapshotFile}
use nix_ci_worker.Snapshot.Narinfo.{narinfo_key}
use nix_ci_worker.Snapshot.Index.{IndexedPath, SnapshotIndex}
use nix_ci_worker.Catalog.{no_file}
use nix_ci_worker.Snapshot.Index.Select.{Selection, select_path}

module _ (i : SnapshotIndex) where
  -- A path that upstream caches have, and one that has a record.
  abbrev pub covered : Text → Bool
  covered path = has i.paths path && has i.upstream path

  abbrev pub recorded : Text → Bool
  recorded path = elim (lookup path i.paths) [ none ↦ false | some r ↦ not (text_eq r.text []) ]

  abbrev pub archive_of : Text → Text
  archive_of path = elim (lookup path i.paths) [ none ↦ [] | some r ↦ r.archive ]

  abbrev pub text_of : Text → Text
  text_of path = elim (lookup path i.paths) [ none ↦ [] | some r ↦ r.text ]

  -- The maps of a selection have what the paths that were seen have.
  pub record Holds (st : Selection) : Type 0 where
    pub upstream_of : (x : Text) → has st.upstream x ≡ any (λ p. covered p && text_eq p x) st.seen
    pub narinfos_of :
        (x : Text) → has st.narinfos x ≡ any (λ p. recorded p && text_eq (narinfo_key p) x) st.seen
    pub files_of :
        (x : Text) → has st.files x ≡ any (λ p. recorded p && text_eq (archive_of p) x) st.seen
    pub upstream_value :
        (x : Text) (refs : List Text)
        → lookup x st.upstream ≡ some refs
        → lookup x i.upstream ≡ some refs
    pub narinfos_value :
        (x text : Text)
        → lookup x st.narinfos ≡ some text
        → (p : Text) × (contains st.seen p ≡ true)
          × (recorded p ≡ true)
          × (narinfo_key p ≡ x)
          × (text_of p ≡ text)
    pub files_value :
        (x : Text) (file : SnapshotFile)
        → lookup x st.files ≡ some file
        → get_or i.files x no_file ≡ file

  -- What holds of the entries of a map and of a new one holds of all.
  insert_value :
      {V : Type 0} (P : Text → V → Type 0) (k : Text) (v : V) (m : Dict V)
      → P k v
      → ((x : Text) (w : V) → lookup x m ≡ some w → P x w)
      → (x : Text) (w : V) → lookup x (insert k v m) ≡ some w
      → P x w
  insert_value P k v m here there x w h = elim (Bool-cases (text_eq k x)) [
    | inl e ↦
        let found = sym (lookup-insert k x v m ∙ rw e refl) ∙ h in
        subst (λ y. P y w) ((text_eq_iff k x).0 e) (subst (P k) (some_eq v w found) here)
    | inr e ↦ there x w (sym (lookup-insert k x v m ∙ rw e refl) ∙ h)
  ]

  put_some_value :
      {V : Type 0} (P : Text → V → Type 0) (k : Text) (o : Option V) (m : Dict V)
      → ((v : V) → o ≡ some v → P k v)
      → ((x : Text) (w : V) → lookup x m ≡ some w → P x w)
      → (x : Text) (w : V) → lookup x (elim o [ none ↦ m | some v ↦ insert k v m ]) ≡ some w
      → P x w
  put_some_value P k none m here there = there
  put_some_value P k (some v) m here there = insert_value P k v m (here v refl) there

  put_unless_value :
      {V : Type 0} (P : Text → V → Type 0) (empty : Bool) (k : Text) (v : V) (m : Dict V)
      → (empty ≡ false → P k v)
      → ((x : Text) (w : V) → lookup x m ≡ some w → P x w)
      → (x : Text) (w : V) → lookup x (if empty then m else insert k v m) ≡ some w
      → P x w
  put_unless_value P true k v m here there = there
  put_unless_value P false k v m here there = insert_value P k v m (here refl) there

  -- A narinfo is that of a path that was seen.
  abbrev NarinfoSeen : List Text → Text → Text → Type 0
  NarinfoSeen seen x text =
      (p : Text) × (contains seen p ≡ true)
      × (recorded p ≡ true)
      × (narinfo_key p ≡ x)
      × (text_of p ≡ text)

  NarinfoSeen-later :
      (seen : List Text) (path x text : Text)
      → NarinfoSeen seen x text
      → NarinfoSeen (path ∷ seen) x text
  NarinfoSeen-later seen path x text (p, there, good, named, has_text) =
      (p, contains_later path seen p there, good, named, has_text)

  has-put_some :
      {V : Type 0} (path x : Text) (o : Option V) (m : Dict V)
      → has (elim o [ none ↦ m | some v ↦ insert path v m ]) x
        ≡ ((elim o [ none ↦ false | some v ↦ true ] && text_eq path x) || has m x)
  has-put_some path x none m = refl
  has-put_some path x (some v) m = has-insert path x v m

  has-put_unless :
      {V : Type 0} (empty : Bool) (path x : Text) (v : V) (m : Dict V)
      → has (if empty then m else insert path v m) x ≡ ((not empty && text_eq path x) || has m x)
  has-put_unless true path x v m = refl
  has-put_unless false path x v m = has-insert path x v m

  pub select_path-Holds :
      (path : Text) (r : IndexedPath) (st : Selection)
      → lookup path i.paths ≡ some r
      → Holds st
      → Holds (select_path i path r (record st { seen = path ∷ st.seen }))
  unfolding select_path
  select_path-Holds path r st known h =
      let text_there =
        sym (ap (λ o. elim o [ none ↦ false | some q ↦ not (text_eq q.text []) ]) known) in
      let archive_there = sym (ap (λ o. elim o [ none ↦ [] | some q ↦ q.archive ]) known) in
      record {
        upstream_of = λ x.
            has-put_some path x (lookup path i.upstream) st.upstream
            ∙ ap (λ z. (has i.upstream path && text_eq path x) || z) (h.upstream_of x)
            ∙ ap
                (λ o.
                  (elim o [ none ↦ false | some q ↦ true ] && has i.upstream path && text_eq path x)
                  || any (λ p. covered p && text_eq p x) st.seen)
                (sym known);
        narinfos_of = λ x.
            has-put_unless (text_eq r.text []) (narinfo_key path) x r.text st.narinfos
            ∙ ap (λ z. (not (text_eq r.text []) && text_eq (narinfo_key path) x) || z)
                (h.narinfos_of x)
            ∙ ap
                (λ b.
                  (b && text_eq (narinfo_key path) x)
                  || any (λ p. recorded p && text_eq (narinfo_key p) x) st.seen)
                text_there;
        files_of = λ x.
            has-put_unless (text_eq r.text []) r.archive x (get_or i.files r.archive no_file)
              st.files
            ∙ ap (λ z. (not (text_eq r.text []) && text_eq r.archive x) || z) (h.files_of x)
            ∙ ap
                (λ b.
                  (b && text_eq r.archive x)
                  || any (λ p. recorded p && text_eq (archive_of p) x) st.seen)
                text_there
            ∙ ap
                (λ a.
                  (recorded path && text_eq a x)
                  || any (λ p. recorded p && text_eq (archive_of p) x) st.seen)
                archive_there;
        upstream_value =
            put_some_value (λ x refs. lookup x i.upstream ≡ some refs) path (lookup path i.upstream)
              st.upstream (λ refs e. e) h.upstream_value;
        narinfos_value =
            put_unless_value (NarinfoSeen (path ∷ st.seen)) (text_eq r.text []) (narinfo_key path)
              r.text st.narinfos
              (λ e. (
                path,
                contains_self path st.seen,
                sym text_there ∙ ap not e,
                refl,
                ap (λ o. elim o [ none ↦ [] | some q ↦ q.text ]) known,
              ))
              (λ x t e. NarinfoSeen-later st.seen path x t (h.narinfos_value x t e));
        files_value =
            put_unless_value (λ x f. get_or i.files x no_file ≡ f) (text_eq r.text []) r.archive
              (get_or i.files r.archive no_file) st.files (λ e. refl) h.files_value;
      }

  pub missing-Holds :
      (path : Text) (st : Selection)
      → lookup path i.paths ≡ none
      → Holds st
      → Holds (record st { seen = path ∷ st.seen })
  missing-Holds path st absent h =
      let no_text =
        sym (ap (λ o. elim o [ none ↦ false | some q ↦ not (text_eq q.text []) ]) absent) in
      record {
        upstream_of = λ x.
            h.upstream_of x
            ∙ ap
                (λ o.
                  (elim o [ none ↦ false | some q ↦ true ] && has i.upstream path && text_eq path x)
                  || any (λ p. covered p && text_eq p x) st.seen)
                (sym absent);
        narinfos_of = λ x.
            h.narinfos_of x
            ∙ ap
                (λ b.
                  (b && text_eq (narinfo_key path) x)
                  || any (λ p. recorded p && text_eq (narinfo_key p) x) st.seen)
                no_text;
        files_of = λ x.
            h.files_of x
            ∙ ap
                (λ b.
                  (b && text_eq (archive_of path) x)
                  || any (λ p. recorded p && text_eq (archive_of p) x) st.seen)
                no_text;
        upstream_value = h.upstream_value;
        narinfos_value = λ x t e. NarinfoSeen-later st.seen path x t (h.narinfos_value x t e);
        files_value = h.files_value;
      }
