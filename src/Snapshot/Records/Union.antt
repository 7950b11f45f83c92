-- ===== src/Snapshot/Records/Union.antt =====
-- Merge of worker/snapshot.go: the paths of the union.
use nix_ci_worker.Base.{
  ◌≡◌, refl, sym, ap, ◌∙◌, subst, inl, inr, Text, Dict, List, [], ◌∷◌, Option, none, some, Bool,
  true, false, ◌&&◌, ◌||◌, if◌then◌else◌, codes, contains, text_eq, text_eq_iff, has, lookup,
  lookup-insert, lookup-none, insert, keys, IsUnique, has-insert, has_entry, ok, ok_eq, guard-eq-ok,
  passed, ok_parts, arith, and_parts, or_false, Bool-cases, Option-cases,
}
use nix_ci_worker.Snapshot.Paths.{valid_store_path}
use nix_ci_worker.Snapshot.Narinfo.{narinfo_fields, narinfo_key, field, matching_fields}
use nix_ci_worker.Snapshot.Narinfo.First.{no_newline}
use nix_ci_worker.Snapshot.Narinfo.Clean.{valid_store_path-no_newline}
use nix_ci_worker.Snapshot.Index.{equal}
use nix_ci_worker.Snapshot.Records.{
  Snapshot, elements, matching_narinfos, merge_upstream, merge_narinfo, merge_narinfos, merge,
  contains_path,
}
use nix_ci_worker.Snapshot.Records.Closure.{store_path_lem, has_prefix-store_path, begins}

or_same : (a b : Bool) → a ≡ b → (a || b) ≡ b
or_same a b h = ground arith

or_assoc : (a b c : Bool) → ((a || b) || c) ≡ (a || (b || c))
or_assoc a b c = ground arith

or_four :
    (a b c d : Bool) {x y : Bool} → x ≡ (a || b) → y ≡ (c || d) → (x || y) ≡ ((a || c) || (b || d))
or_four a b c d h k = ground arith

or_turn : (a b c : Bool) → ((a || b) || c) ≡ (b || (a || c))
or_turn a b c = ground arith

-- The paths of upstream caches are those of either.
has-merge_upstream :
    (new own m : Dict (Option (List Text))) (p : Text)
    → merge_upstream new own ≡ ok m
    → has m p ≡ (has own p || has new p)
unfolding merge_upstream
has-merge_upstream [] own m p h = rw (sym (ok_eq own m h)) (sym (or_false (has own p)))
has-merge_upstream ((path, refs) ∷ new) own m p h =
    let (agrees, h1) =
      passed
        (elim (lookup path own) [
          | none ↦ true
          | some existing ↦ equal (elements existing) (elements refs)
        ])
        "conflicting upstream references" _ h in
    has-merge_upstream new (insert path refs own) m p h1
    ∙ ap (λ b. b || has new p) (has-insert path p refs own)
    ∙ or_turn (text_eq path p) (has own p) (has new p)
    ∙ sym (ap (λ b. has own p || b) (has_entry path p refs new))

matching_fields-store_path :
    (a b : Dict Text)
    → matching_fields a b ≡ true
    → field a (codes "StorePath") ≡ field b (codes "StorePath")
unfolding matching_fields
matching_fields-store_path a b h =
    (text_eq_iff (field a (codes "StorePath")) (field b (codes "StorePath"))).0
      ((and_parts _ _ h).0)

-- Records that do not conflict are records of one path.
matching_narinfos-begins :
    (left right p : Text)
    → matching_narinfos left right ≡ ok tt
    → no_newline p ≡ true
    → begins p (some left) ≡ begins p (some right)
unfolding matching_narinfos
matching_narinfos-begins left right p h clean = elim (Bool-cases (text_eq left right)) [
  | inl e ↦ ap (λ (t : Text). begins p (some t)) ((text_eq_iff left right).0 e)
  | inr e ↦
      let rest = rw (e, if◌then◌else◌) at h in
      let (a, read_a, h1) = ok_parts (narinfo_fields left) _ rest in
      let (b, read_b, h2) = ok_parts (narinfo_fields right) _ h1 in
      let same =
        matching_fields-store_path a b
          (guard-eq-ok (matching_fields a b) "conflicting cache record" h2) in
      has_prefix-store_path left p a read_a clean
      ∙ ap (λ (t : Text). text_eq t p)
          (store_path_lem left a read_a ∙ same ∙ sym (store_path_lem right b read_b))
      ∙ sym (has_prefix-store_path right p b read_b clean)
]

-- A text that is put under a key that was free.
begins_new :
    (p k name value : Text) (own : Dict Text)
    → lookup name own ≡ none
    → begins p (lookup k (insert name value own))
      ≡ (begins p (lookup k own) || (text_eq name k && begins p (some value)))
begins_new p k name value own e = elim (Bool-cases (text_eq name k)) [
  | inl same ↦
      let gone : lookup k own ≡ none =
        subst (λ j. lookup j own ≡ none) ((text_eq_iff name k).0 same) e in
      rw (lookup-insert name k value own, same, gone) refl
  | inr other ↦
      rw (lookup-insert name k value own, other) (sym (or_false (begins p (lookup k own))))
]

-- A text that does not conflict with the one that is there.
begins_old :
    (p k name value existing : Text) (own : Dict Text)
    → lookup name own ≡ some existing
    → begins p (some existing) ≡ begins p (some value)
    → begins p (lookup k own)
      ≡ (begins p (lookup k own) || (text_eq name k && begins p (some value)))
begins_old p k name value existing own e agree = elim (Bool-cases (text_eq name k)) [
  | inl same ↦
      let found : lookup k own ≡ some existing =
        subst (λ j. lookup j own ≡ some existing) ((text_eq_iff name k).0 same) e in
      rw (found, same)
        (agree ∙ sym (or_same (begins p (some existing)) (begins p (some value)) agree))
  | inr other ↦ rw other (sym (or_false (begins p (lookup k own))))
]

-- What is under a key of the list, when no key is there twice.
begins_entry :
    (p k name value : Text) (new : Dict Text)
    → contains (keys new) name ≡ false
    → begins p (lookup k ((name, value) ∷ new))
      ≡ ((text_eq name k && begins p (some value)) || begins p (lookup k new))
unfolding lookup
begins_entry p k name value new u = elim (Bool-cases (text_eq name k)) [
  | inl same ↦
      let gone : lookup k new ≡ none =
        subst (λ j. lookup j new ≡ none) ((text_eq_iff name k).0 same) (lookup-none name new u) in
      rw (same, gone) (sym (or_false (begins p (some value))))
  | inr other ↦ rw other refl
]

-- One record of the other snapshot.
merge_narinfo-begins :
    (name value : Text) (own m : Dict Text) (k p : Text)
    → merge_narinfo name value own ≡ ok m
    → no_newline p ≡ true
    → begins p (lookup k m) ≡ (begins p (lookup k own) || (text_eq name k && begins p (some value)))
unfolding merge_narinfo
merge_narinfo-begins name value own m k p h clean = elim (Option-cases (lookup name own)) [
  | inl e ↦
      let same = ok_eq (insert name value own) m (rw (e, merge_narinfo) at h) in
      rw (sym same) (begins_new p k name value own e)
  | inr (existing, e) ↦
      let (t, agree, last) =
        ok_parts (matching_narinfos existing value) _ (rw (e, merge_narinfo) at h) in
      rw (sym (ok_eq own m last)) (
        begins_old p k name value existing own e
          (matching_narinfos-begins existing value p agree clean))
]

merge_narinfos-begins :
    (new own m : Dict Text) (k p : Text)
    → IsUnique (keys new)
    → merge_narinfos new own ≡ ok m
    → no_newline p ≡ true
    → begins p (lookup k m) ≡ (begins p (lookup k own) || begins p (lookup k new))
unfolding merge_narinfos
merge_narinfos-begins [] own m k p u h clean =
    rw (sym (ok_eq own m h)) (sym (or_false (begins p (lookup k own))))
merge_narinfos-begins ((name, value) ∷ new) own m k p u h clean =
    let (next, first, rest) = ok_parts (merge_narinfo name value own) (merge_narinfos new) h in
    merge_narinfos-begins new next m k p u.1 rest clean
    ∙ ap (λ b. b || begins p (lookup k new))
        (merge_narinfo-begins name value own next k p first clean)
    ∙ (or_assoc (begins p (lookup k own)) (text_eq name k && begins p (some value))
          (begins p (lookup k new))
        ∙ sym (ap (λ b. begins p (lookup k own) || b) (begins_entry p k name value new u.0)))

-- A snapshot that takes another in contains the store paths of both and no others.
pub merge-contains_path :
    (s other m : Snapshot) (path : Text)
    → merge s other ≡ ok m
    → IsUnique (keys other.narinfos)
    → valid_store_path path ≡ true
    → contains_path m path ≡ (contains_path s path || contains_path other path)
unfolding merge contains_path
merge-contains_path s other m path h u valid =
    let (up, h1, rest) = ok_parts (merge_upstream other.upstream s.upstream) _ h in
    let (nar, h2, last) = ok_parts (merge_narinfos other.narinfos s.narinfos) _ rest in
    let whole = ok_eq _ m last in
    let files_same : nar ≡ m.narinfos = ap (λ (x : Snapshot). x.narinfos) whole in
    let up_same : up ≡ m.upstream = ap (λ (x : Snapshot). x.upstream) whole in
    let key = narinfo_key path in
    let one : has m.upstream path ≡ (has s.upstream path || has other.upstream path) =
      subst
        (λ (x : Dict (Option (List Text))).
          has x path ≡ (has s.upstream path || has other.upstream path))
        up_same (has-merge_upstream other.upstream s.upstream up path h1) in
    let two : begins path (lookup key m.narinfos)
        ≡ (begins path (lookup key s.narinfos) || begins path (lookup key other.narinfos)) =
      subst
        (λ (x : Dict Text).
          begins path (lookup key x)
          ≡ (begins path (lookup key s.narinfos) || begins path (lookup key other.narinfos)))
        files_same
        (merge_narinfos-begins other.narinfos s.narinfos nar key path u h2
          (valid_store_path-no_newline path valid)) in
    or_four (has s.upstream path) (has other.upstream path) (begins path (lookup key s.narinfos))
      (begins path (lookup key other.narinfos)) one two
