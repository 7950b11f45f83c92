-- ===== src/Snapshot/Records/Closure.antt =====
-- RequireClosed of worker/snapshot.go asks for what Contains answers.
use nix_ci_worker.Base.{
  ◌≡◌, refl, sym, ap, ◌∙◌, ◌⊎◌, inl, inr, Text, Dict, List, [], ◌∷◌, ◌++◌, Option, none, some, Bool,
  false≢true, true, false, ◌&&◌, ◌||◌, any, codes, contains, text_eq, text_eq_iff, has, has_prefix,
  lookup, keys, IsUnique, All, add_member, contains-add_member, ok, passed, ok_parts, arith,
  and_parts, or_false, Bool-cases,
}
use nix_ci_worker.Snapshot.Files.{SnapshotFile}
use nix_ci_worker.Snapshot.Narinfo.{narinfo_fields, narinfo_key, field}
use nix_ci_worker.Snapshot.Narinfo.First.{no_newline, narinfo_starts}
use nix_ci_worker.Snapshot.Records.{
  validate_narinfos, fields_of, store_path, add_upstream, add_recorded,
}

has_prefix_line :
    (f p rest : Text)
    → no_newline f ≡ true
    → no_newline p ≡ true
    → has_prefix (f ++ 10 ∷ rest) (p ++ 10 ∷ []) ≡ text_eq f p
unfolding has_prefix text_eq
has_prefix_line [] [] rest h k = refl
has_prefix_line [] (c ∷ p) rest h k = ground arith
has_prefix_line (c ∷ f) [] rest h k = ground arith
has_prefix_line (c ∷ f) (d ∷ p) rest h k = ground (arith, has_prefix_line f p rest)

pub fields_of_lem :
    (value : Text) (parsed : Dict Text)
    → narinfo_fields value ≡ ok parsed
    → fields_of value ≡ parsed
unfolding fields_of
fields_of_lem value parsed h = rw h refl

pub store_path_lem :
    (value : Text) (parsed : Dict Text)
    → narinfo_fields value ≡ ok parsed
    → store_path value ≡ field parsed (codes "StorePath")
unfolding store_path
store_path_lem value parsed h =
    ap (λ (m : Dict Text). field m (codes "StorePath")) (fields_of_lem value parsed h)

-- The test of Contains on a text that parses.
pub has_prefix-store_path :
    (value path : Text) (parsed : Dict Text)
    → narinfo_fields value ≡ ok parsed
    → no_newline path ≡ true
    → has_prefix value (codes "StorePath: " ++ path ++ 10 ∷ []) ≡ text_eq (store_path value) path
unfolding has_prefix
has_prefix-store_path value path parsed h clean =
    let (rest, whole, first) = narinfo_starts value parsed h in
    let line = has_prefix_line (field parsed (codes "StorePath")) path rest first clean in
    rw (store_path_lem value parsed h)
      (ap (λ (v : Text). has_prefix v (codes "StorePath: " ++ path ++ 10 ∷ [])) whole ∙ line)

-- A record that parses and stands under its key.
abbrev pub IsKeyed : Text → Text → Type 0
IsKeyed name value =
    (parsed : Dict Text) × (narinfo_fields value ≡ ok parsed)
    × (name ≡ narinfo_key (store_path value))

pub validate_narinfos-IsKeyed :
    (files : Dict SnapshotFile) (m : Dict Text)
    → validate_narinfos files m ≡ ok tt
    → All (λ e. IsKeyed e.0 e.1) m
unfolding validate_narinfos
validate_narinfos-IsKeyed files [] h = tt
validate_narinfos-IsKeyed files ((name, value) ∷ m) h =
    let (parsed, e, h1) = ok_parts (narinfo_fields value) _ h in
    let (found, h2) =
      passed
        (text_eq name (narinfo_key (field parsed (codes "StorePath")))
          && has files (codes "cache/" ++ field parsed (codes "URL")))
        "narinfo references an unreachable archive" _ h1 in
    let (keyed, archived) = and_parts _ _ found in
    let same : name ≡ narinfo_key (field parsed (codes "StorePath")) =
      (text_eq_iff name _).0 keyed in
    ((parsed, e, rw (store_path_lem value parsed e) same), validate_narinfos-IsKeyed files m h2)

-- The paths that RequireClosed collects.
pub contains-add_upstream :
    (m : Dict (Option (List Text))) (paths : List Text) (p : Text)
    → contains (add_upstream m paths) p ≡ (contains (keys m) p || contains paths p)
unfolding add_upstream contains
contains-add_upstream [] paths p = refl
contains-add_upstream ((path, refs) ∷ m) paths p =
    ground
      (arith, contains-add_upstream m (add_member path paths) p, contains-add_member path p paths)

abbrev pub recorded : Dict Text → Text → Bool
recorded m p = any (λ e. text_eq (store_path e.1) p) m

or_swap : (a b c : Bool) → (a || (b || c)) ≡ ((b || a) || c)
or_swap a b c = ground arith

pub contains-add_recorded :
    (m : Dict Text) (paths : List Text) (p : Text)
    → contains (add_recorded m paths) p ≡ (recorded m p || contains paths p)
unfolding add_recorded
contains-add_recorded [] paths p = refl
contains-add_recorded ((name, value) ∷ m) paths p =
    contains-add_recorded m (add_member (store_path value) paths) p
    ∙ ap (λ b. recorded m p || b) (contains-add_member (store_path value) p paths)
    ∙ or_swap (recorded m p) (text_eq (store_path value) p) (contains paths p)

recorded_key :
    (m : Dict Text) (p : Text)
    → All (λ e. IsKeyed e.0 e.1) m
    → recorded m p ≡ true
    → contains (keys m) (narinfo_key p) ≡ true
unfolding contains
recorded_key [] p a h = h
recorded_key ((name, value) ∷ m) p a h = elim (Bool-cases (text_eq (store_path value) p)) [
  | inl e ↦
      let same = a.0.2 ∙ ap narinfo_key ((text_eq_iff (store_path value) p).0 e) in
      ground (arith, (text_eq_iff name (narinfo_key p)).1 same)
  | inr e ↦ ground (arith, recorded_key m p a.1 (rw e at h))
]

-- Whether the record under a key begins with a path.
abbrev pub begins : Text → Option Text → Bool
begins path found = elim found [
  | none ↦ false
  | some value ↦ has_prefix value (codes "StorePath: " ++ path ++ 10 ∷ [])
]

pub recorded-begins :
    (m : Dict Text) (p : Text)
    → IsUnique (keys m)
    → All (λ e. IsKeyed e.0 e.1) m
    → no_newline p ≡ true
    → recorded m p ≡ begins p (lookup (narinfo_key p) m)
unfolding lookup
recorded-begins [] p u a c = refl
recorded-begins ((name, value) ∷ m) p u a c =
    let (parsed, e, keyed) = a.0 in
    let same = has_prefix-store_path value p parsed e c in
    elim (Bool-cases (text_eq name (narinfo_key p))) [
      | inl k ↦
          rw (k, same) (hit (Bool-cases (recorded m p)) ((text_eq_iff name (narinfo_key p)).0 k))
      | inr k ↦ rw k (
          ground (
            arith,
            recorded-begins m p u.1 a.1 c,
            text_eq_iff (store_path value) p,
            text_eq_iff name (narinfo_key p),
            keyed,
          ))
    ]
  where
    hit :
        (recorded m p ≡ true) ⊎ (recorded m p ≡ false)
        → name ≡ narinfo_key p
        → (text_eq (store_path value) p || recorded m p) ≡ text_eq (store_path value) p
    hit (inl r) k =
        absurd (false≢true (sym u.0 ∙ ap (contains (keys m)) k ∙ recorded_key m p a.1 r))
    hit (inr r) k = rw r (or_false (text_eq (store_path value) p))
