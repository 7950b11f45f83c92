-- ===== src/Snapshot/Records/Exact.antt =====
-- RequireClosed of worker/snapshot.go against Contains.
use nix_ci_worker.Base.{
  ◌≡◌, refl, sym, ap, ◌∙◌, ◌↔◌, Text, Dict, List, [], ◌∷◌, ◌++◌, Option, some, Bool, true, false,
  ◌&&◌, ◌||◌, all, codes, contains, has, lookup, keys, IsUnique, All, All-entries, lookup-All,
  All-map, All-zip, has-contains, ok, passed, ok_parts, arith,
}
use nix_ci_worker.Scheduler.Job.{fields}
use nix_ci_worker.Snapshot.Paths.{valid_store_path}
use nix_ci_worker.Snapshot.Narinfo.{narinfo_key, field, store_dir, record_ref}
use nix_ci_worker.Snapshot.Narinfo.First.{no_newline, narinfo_fields-record_ref}
use nix_ci_worker.Snapshot.Narinfo.Clean.{
  all_agree, record_ref-no_newline, valid_store_path-no_newline,
}
use nix_ci_worker.Snapshot.Records.{
  Snapshot, elements, is_some, validate_upstream, validate_narinfos, validate_records, fields_of,
  add_upstream, add_recorded, check_upstream, check_narinfos, require_closed, contains_path,
}
use nix_ci_worker.Snapshot.Records.Closure.{
  IsKeyed, fields_of_lem, validate_narinfos-IsKeyed, contains-add_upstream, contains-add_recorded,
  recorded-begins, recorded, begins,
}

abbrev refs_of_text : Text → List Text
refs_of_text value = fields (field (fields_of value) (codes "References"))

-- Each reference of each path is a path that Contains finds.
abbrev pub IsClosed : Snapshot → Type 0
IsClosed s =
    ((path : Text) (refs : Option (List Text))
      → lookup path s.upstream ≡ some refs
      → all (contains_path s) (elements refs) ≡ true)
    × ((name value : Text)
        → lookup name s.narinfos ≡ some value
        → all (λ ref. contains_path s (store_dir ++ ref)) (refs_of_text value) ≡ true)

check_upstream_iff :
    (paths : List Text) (m : Dict (Option (List Text)))
    → (check_upstream paths m ≡ ok tt) ↔ All (λ e. all (contains paths) (elements e.1) ≡ true) m
unfolding check_upstream
check_upstream_iff paths [] = (λ h. tt, λ a. refl)
check_upstream_iff paths ((path, refs) ∷ m) = (
  λ h.
      let (first, rest) =
        passed (all (contains paths) (elements refs))
          "upstream coverage contains incomplete references" _ h in
      (first, (check_upstream_iff paths m).0 rest),
  λ a. rw (a.0) ((check_upstream_iff paths m).1 a.1),
)

check_narinfos_iff :
    (paths : List Text) (m : Dict Text)
    → (check_narinfos paths m ≡ ok tt)
      ↔ All (λ e. all (λ ref. contains paths (store_dir ++ ref)) (refs_of_text e.1) ≡ true) m
unfolding check_narinfos
check_narinfos_iff paths [] = (λ h. tt, λ a. refl)
check_narinfos_iff paths ((name, value) ∷ m) = (
  λ h.
      let (first, rest) =
        passed (all (λ ref. contains paths (store_dir ++ ref)) (refs_of_text value))
          "cache contains incomplete references" _ h in
      (first, (check_narinfos_iff paths m).0 rest),
  λ a. rw (a.0) ((check_narinfos_iff paths m).1 a.1),
)

validate_upstream_lem :
    (m : Dict (Option (List Text)))
    → validate_upstream m ≡ ok tt
    → All (λ e. all valid_store_path (elements e.1) ≡ true) m
unfolding validate_upstream
validate_upstream_lem [] h = tt
validate_upstream_lem ((path, refs) ∷ m) h =
    let (first, h1) =
      passed (valid_store_path path && is_some refs) "invalid upstream coverage" _ h in
    let (valid, h2) =
      passed (all valid_store_path (elements refs)) "invalid upstream coverage" _ h1 in
    (valid, validate_upstream_lem m h2)

-- The variable `paths`.
abbrev paths_of : Snapshot → List Text
paths_of s = add_recorded s.narinfos (add_upstream s.upstream [])

or_parts : (a b c d : Bool) → a ≡ d → c ≡ b → (a || (b || false)) ≡ (c || d)
or_parts a b c d h k = ground arith

module _ (s : Snapshot) (u : IsUnique (keys s.narinfos)) (valid : validate_records s ≡ ok tt) where
  parts : (validate_upstream s.upstream ≡ ok tt) × (validate_narinfos s.files s.narinfos ≡ ok tt)
  unfolding validate_records
  parts = let (t, up, rest) = ok_parts (validate_upstream s.upstream) _ valid in (up, rest)

  keyed : All (λ e. IsKeyed e.0 e.1) s.narinfos
  keyed = validate_narinfos-IsKeyed s.files s.narinfos parts.1

  collected : (p : Text) → no_newline p ≡ true → contains (paths_of s) p ≡ contains_path s p
  unfolding contains_path contains
  collected p clean =
      contains-add_recorded s.narinfos (add_upstream s.upstream []) p
      ∙ ap (λ b. recorded s.narinfos p || b) (contains-add_upstream s.upstream [] p)
      ∙ or_parts (recorded s.narinfos p) (contains (keys s.upstream) p) (has s.upstream p)
          (begins p (lookup (narinfo_key p) s.narinfos))
          (recorded-begins s.narinfos p u keyed clean) (has-contains s.upstream p)

  upstream_agree :
      All
        (λ e. all (contains (paths_of s)) (elements e.1) ≡ all (contains_path s) (elements e.1))
        s.upstream
  upstream_agree =
      All-map s.upstream
        (λ e a.
          all_agree valid_store_path (contains (paths_of s)) (contains_path s) (elements e.1)
            (λ x k. collected x (valid_store_path-no_newline x k)) a)
        (validate_upstream_lem s.upstream parts.0)

  narinfo_agrees :
      (name value : Text)
      → IsKeyed name value
      → all (λ ref. contains (paths_of s) (store_dir ++ ref)) (refs_of_text value)
        ≡ all (λ ref. contains_path s (store_dir ++ ref)) (refs_of_text value)
  narinfo_agrees name value (parsed, e, k) =
      all_agree (record_ref 32) (λ ref. contains (paths_of s) (store_dir ++ ref))
        (λ ref. contains_path s (store_dir ++ ref)) (refs_of_text value)
        (λ x good. collected (store_dir ++ x) (record_ref-no_newline x good))
        (rw (fields_of_lem value parsed e) (narinfo_fields-record_ref value parsed e))

  upstream_closed :
      (check_upstream (paths_of s) s.upstream ≡ ok tt)
      ↔ All (λ e. all (contains_path s) (elements e.1) ≡ true) s.upstream
  upstream_closed = (
    λ h.
        All-map s.upstream (λ e a. sym a.1 ∙ a.0)
          (All-zip (λ e. all (contains (paths_of s)) (elements e.1) ≡ true)
            (λ e. all (contains (paths_of s)) (elements e.1) ≡ all (contains_path s) (elements e.1))
            s.upstream ((check_upstream_iff (paths_of s) s.upstream).0 h) upstream_agree),
    λ a. (check_upstream_iff (paths_of s) s.upstream).1 (
        All-map s.upstream (λ e a. a.1 ∙ a.0)
          (All-zip (λ e. all (contains_path s) (elements e.1) ≡ true)
            (λ e. all (contains (paths_of s)) (elements e.1) ≡ all (contains_path s) (elements e.1))
            s.upstream a upstream_agree)),
  )

  narinfos_closed :
      (check_narinfos (paths_of s) s.narinfos ≡ ok tt)
      ↔ All
          (λ e. all (λ ref. contains_path s (store_dir ++ ref)) (refs_of_text e.1) ≡ true)
          s.narinfos
  narinfos_closed = (
    λ h.
        All-map s.narinfos (λ e a. sym (narinfo_agrees e.0 e.1 a.1) ∙ a.0)
          (All-zip
            (λ e. all (λ ref. contains (paths_of s) (store_dir ++ ref)) (refs_of_text e.1) ≡ true)
            (λ e. IsKeyed e.0 e.1) s.narinfos ((check_narinfos_iff (paths_of s) s.narinfos).0 h)
            keyed),
    λ a. (check_narinfos_iff (paths_of s) s.narinfos).1 (
        All-map s.narinfos (λ e a. narinfo_agrees e.0 e.1 a.1 ∙ a.0)
          (All-zip (λ e. all (λ ref. contains_path s (store_dir ++ ref)) (refs_of_text e.1) ≡ true)
            (λ e. IsKeyed e.0 e.1) s.narinfos a keyed)),
  )

-- RequireClosed succeeds exactly when the records are valid and Contains finds each reference of each path.
pub require_closed_exact :
    (s : Snapshot)
    → IsUnique (keys s.narinfos)
    → IsUnique (keys s.upstream)
    → (require_closed s ≡ ok tt) ↔ ((validate_records s ≡ ok tt) × IsClosed s)
unfolding require_closed
require_closed_exact s u v = (
  λ h.
      let (t, valid, h1) = ok_parts (validate_records s) _ h in
      let (t2, up, nar) = ok_parts (check_upstream (paths_of s) s.upstream) _ h1 in
      (
        valid,
        (
          λ path refs e.
              All-entries (λ _ r. all (contains_path s) (elements r) ≡ true) s.upstream path refs
                ((upstream_closed s u valid).0 up) e,
          λ name value e.
              All-entries
                (λ _ r. all (λ ref. contains_path s (store_dir ++ ref)) (refs_of_text r) ≡ true)
                s.narinfos name value ((narinfos_closed s u valid).0 nar) e,
        ),
      ),
  λ (valid, closed).
      let up =
        (upstream_closed s u valid).1
          (lookup-All (λ _ r. all (contains_path s) (elements r) ≡ true) s.upstream v closed.0) in
      let nar = (narinfos_closed s u valid).1 (
        lookup-All (λ _ r. all (λ ref. contains_path s (store_dir ++ ref)) (refs_of_text r) ≡ true)
          s.narinfos u closed.1) in
      rw (valid, up) nar,
)
