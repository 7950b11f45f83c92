-- ===== src/Snapshot/Index/Select/Exact.antt =====
-- worker/snapshot_index.go: selectPaths as a whole, against the paths that its roots need.
use nix_ci_worker.Base.{
  false, ◌⊎◌, Option, Option-cases, none, some, get_or, if◌then◌else◌, ◌+◌, ◌≤◌, ◌≡◌, ◌↔◌, refl,
  sym, ap, subst, ◌∙◌, inl, inr, arith, Text, Dict, List, [], ◌∷◌, Bool, true, false≢true, ◌&&◌,
  ◌||◌, any, length, contains, contains-sort_by, contains_self, text_eq, text_eq_iff, text_eq_self,
  text_le, sort_by, has, lookup, Bool-cases,
}
use nix_ci_worker.Catalog.{no_file}
use nix_ci_worker.Snapshot.Narinfo.{narinfo_key}
use nix_ci_worker.Snapshot.Index.{IndexedPath, SnapshotIndex}
use nix_ci_worker.Snapshot.Index.Select.{Selection, push, all_refs, select_paths}
use nix_ci_worker.Snapshot.Index.Select.Held.{covered, recorded, archive_of, text_of, Holds}
use nix_ci_worker.Snapshot.Index.Select.Rounds.{
  Reached, root, reference, Invariant, contains-push, length-push, left, room,
  select_from-Invariant,
}

module _ (i : SnapshotIndex) where
  left_all : (paths : Dict IndexedPath) → left i [] paths ≡ all_refs paths
  unfolding contains
  left_all [] = refl
  left_all ((path, r) ∷ paths) = ap (λ n. length r.refs + n) (left_all paths)

  any-contains :
      (b : Text → Bool) (f : Text → Text) (x : Text) (ps : List Text)
      → any (λ p. b p && text_eq (f p) x) ps ≡ true
      → (p : Text) × (contains ps p ≡ true) × (b p ≡ true) × (f p ≡ x)
  unfolding contains
  any-contains b f x [] h = elim (false≢true h) [ ]
  any-contains b f x (p ∷ ps) h = elim (Bool-cases (b p && text_eq (f p) x)) [
    | inl e ↦
        (p, contains_self p ps, ground (arith, e), (text_eq_iff (f p) x).0 (ground (arith, e)))
    | inr e ↦
        let (q, there, good, named) = any-contains b f x ps (ground (arith, e, h)) in
        (q, ground (arith, there), good, named)
  ]

  contains-any :
      (b : Text → Bool) (f : Text → Text) (p : Text) (ps : List Text)
      → contains ps p ≡ true
      → b p ≡ true
      → any (λ q. b q && text_eq (f q) (f p)) ps ≡ true
  unfolding contains
  contains-any b f p [] h k = elim (false≢true h) [ ]
  contains-any b f p (q ∷ ps) h k = elim (Bool-cases (text_eq q p)) [
    | inl e ↦
        let same = sym ((text_eq_iff q p).0 e) in
        subst
          (λ j. ((b j && text_eq (f j) (f p)) || any (λ r. b r && text_eq (f r) (f p)) ps) ≡ true)
          same (ground (arith, k, text_eq_self (f p)))
    | inr e ↦ ground (arith, contains-any b f p ps (ground (arith, e, h)) k)
  ]

  -- The paths that are seen in the end are those that are needed.
  seen-Reached :
      (roots : List Text) (st : Selection)
      → Invariant i roots [] st
      → (path : Text) → Reached i roots path
      → contains st.seen path ≡ true
  unfolding contains
  seen-Reached roots st inv path (root _ h) = ground (arith, inv.roots_in path h)
  seen-Reached roots st inv ref (reference path _ r h) =
      ground (arith, inv.closed path ref (seen-Reached roots st inv path r) h)

  -- A map has an entry exactly for the paths that are needed and qualify.
  entry-Reached :
      (roots : List Text) (st : Selection) (b : Text → Bool) (f : Text → Text) (x : Text)
      (present : Bool)
      → Invariant i roots [] st
      → present ≡ any (λ p. b p && text_eq (f p) x) st.seen
      → (present ≡ true) ↔ ((p : Text) × Reached i roots p × (b p ≡ true) × (f p ≡ x))
  unfolding contains
  entry-Reached roots st b f x present inv is = (
    λ h.
        let (p, there, good, named) = any-contains b f x st.seen (sym is ∙ h) in
        (p, inv.sound p (ground (arith, there)), good, named),
    λ (p, needed, good, named).
        is
        ∙ subst (λ y. any (λ q. b q && text_eq (f q) y) st.seen ≡ true) named
            (contains-any b f p st.seen (seen-Reached roots st inv p needed) good),
  )

  select_paths-Invariant : (roots : List Text) → Invariant i roots [] (select_paths i roots)
  unfolding select_paths contains lookup
  select_paths-Invariant roots =
      let sorted = sort_by text_le roots in
      let start : Selection = record { seen = []; files = []; narinfos = []; upstream = [] } in
      let empty : Holds i start = record {
        upstream_of = λ x. refl;
        narinfos_of = λ x. refl;
        files_of = λ x. refl;
        upstream_value = λ x v e. cc;
        narinfos_value = λ x v e. cc;
        files_value = λ x v e. cc;
      } in
      let enough : room i (push sorted []) start ≤ length sorted + all_refs i.paths =
        omega (arith, length-push i sorted [], left_all i.paths) in
      let listed =
        λ (x : Text). contains-push i sorted [] x ∙ ground (arith, contains-sort_by roots x) in
      select_from-Invariant i (length sorted + all_refs i.paths) roots (push sorted []) start
        (record {
          sound = λ x h. root x (sym (listed x) ∙ h);
          roots_in = λ x h. listed x ∙ h;
          closed = λ x y h k. elim (false≢true h) [ ];
          holds = empty;
        })
        enough

  -- What is found is the value that it can only be.
  value_of :
      {V : Type 0} (found value : Option V)
      → ((v : V) → found ≡ some v → value ≡ some v)
      → found ≡ (if elim found [ none ↦ false | some v ↦ true ] then value else none)
  value_of none value h = refl
  value_of (some v) value h = sym (h v refl)

  -- selectPaths selects, of an index, exactly the upstream coverage of the paths that a root needs,
  -- directly or through references, and the narinfos and archives of those that have a record. The
  -- references and the archives' files are those of the index, and a narinfo is that of such a path.
  pub select_paths-Reached :
      (roots : List Text) (x : Text)
      → ((has (select_paths i roots).upstream x ≡ true)
          ↔ ((p : Text) × Reached i roots p × (covered i p ≡ true) × (p ≡ x)))
        × ((has (select_paths i roots).narinfos x ≡ true)
            ↔ ((p : Text) × Reached i roots p × (recorded i p ≡ true) × (narinfo_key p ≡ x)))
        × ((has (select_paths i roots).files x ≡ true)
            ↔ ((p : Text) × Reached i roots p × (recorded i p ≡ true) × (archive_of i p ≡ x)))
        × (lookup x (select_paths i roots).upstream
            ≡ (if has (select_paths i roots).upstream x then lookup x i.upstream else none))
        × ((lookup x (select_paths i roots).narinfos ≡ none)
            ⊎ ((p : Text) × Reached i roots p
                × (recorded i p ≡ true)
                × (narinfo_key p ≡ x)
                × (lookup x (select_paths i roots).narinfos ≡ some (text_of i p))))
        × (lookup x (select_paths i roots).files ≡ (
            if has (select_paths i roots).files x then some (get_or i.files x no_file) else none))
  unfolding contains
  select_paths-Reached roots x =
      let s = select_paths i roots in
      let inv = select_paths-Invariant roots in
      (
        entry-Reached roots s (covered i) (λ p. p) x (has s.upstream x) inv
            (inv.holds.upstream_of x),
        entry-Reached roots s (recorded i) narinfo_key x (has s.narinfos x) inv
            (inv.holds.narinfos_of x),
        entry-Reached roots s (recorded i) (archive_of i) x (has s.files x) inv
            (inv.holds.files_of x),
        value_of (lookup x s.upstream) (lookup x i.upstream) (inv.holds.upstream_value x),
        elim (Option-cases (lookup x s.narinfos)) [
          | inl e ↦ inl e
          | inr (t, e) ↦
              let (p, there, good, named, text) = inv.holds.narinfos_value x t e in
              inr (
                p,
                inv.sound p (ground (arith, there)),
                good,
                named,
                e ∙ ap (λ u. some u) (sym text),
              )
        ],
        value_of (lookup x s.files) (some (get_or i.files x no_file))
            (λ f e. ap (λ g. some g) (inv.holds.files_value x f e)),
      )
