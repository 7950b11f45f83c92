-- ===== src/Base/Dicts.antt =====
-- Go maps keyed by strings, as association lists in the order of one iteration.
use mathlib.Core.Path.{◌≡◌, refl, sym, subst}
use mathlib.Core.Logic.{◌⊎◌, inl, inr}
use mathlib.Core.Bool.{Bool, true, false, ◌||◌}
use mathlib.Core.List.{List, [], ◌∷◌, map}
use mathlib.Core.Option.{Option, none, some}
use native.Mathlib.Omega.{arith}
use nix_ci_worker.Base.Tests.{if◌then◌else◌, Bool-cases}
use nix_ci_worker.Base.Strings.{Text, text_eq, text_eq_iff, text_eq_self, text_le, contains}
use nix_ci_worker.Base.Count.{IsUnique, IsUnique-times, times_unique, some_eq, All}
use nix_ci_worker.Base.Sort.{sort_by, sort_by-count, contains-sort_by}

abbrev pub Dict {ℓ} : Type ℓ → Type ℓ
Dict V = List (Text × V)

module _ {ℓ} {V : Type ℓ} where
  unfoldable pub lookup : Text → Dict V → Option V
  lookup k [] = none
  lookup k ((j, v) ∷ m) = if text_eq j k then some v else lookup k m

  unfoldable pub insert : Text → V → Dict V → Dict V
  insert k v [] = (k, v) ∷ []
  insert k v ((j, w) ∷ m) = if text_eq j k then (k, v) ∷ m else (j, w) ∷ insert k v m

  -- `delete(m, k)`
  unfoldable pub delete : Text → Dict V → Dict V
  delete k [] = []
  delete k ((j, w) ∷ m) = if text_eq j k then m else (j, w) ∷ delete k m

  abbrev pub has : Dict V → Text → Bool
  has m k = elim (lookup k m) [ none ↦ false | some v ↦ true ]

  abbrev pub keys : Dict V → List Text
  keys = map λ e. e.0

  abbrev pub get_or : Dict V → Text → V → V
  get_or m k d = elim (lookup k m) [ none ↦ d | some v ↦ v ]

  -- sortedKeys of planner.go
  unfoldable pub sorted_keys : Dict V → List Text
  unfolding sort_by text_le
  sorted_keys m = sort_by text_le (keys m)

  pub lookup-insert :
      (k j : Text) (v : V) (m : Dict V)
      → lookup j (insert k v m) ≡ (if text_eq k j then some v else lookup j m)
  unfolding lookup insert
  lookup-insert k j v [] = refl
  lookup-insert k j v ((i, w) ∷ m) =
      ground (arith, text_eq_iff k j, text_eq_iff i k, text_eq_iff i j, lookup-insert k j v m)

-- A map to `bool` that holds only `true`: a set, as the list of its members.
unfoldable pub add_member : Text → List Text → List Text
add_member k s = if contains s k then s else k ∷ s

pub contains-add_member :
    (k j : Text) (s : List Text) → contains (add_member k s) j ≡ (text_eq k j || contains s j)
unfolding add_member contains
contains-add_member k j s = ground (arith, text_eq_iff k j)

pub lookup-none {ℓ} :
    {V : Type ℓ} (k : Text) (m : Dict V) → contains (keys m) k ≡ false → lookup k m ≡ none
unfolding lookup contains
lookup-none k [] h = refl
lookup-none k ((j, v) ∷ m) h = ground (arith, lookup-none k m)

pub has-contains {ℓ} : {V : Type ℓ} (m : Dict V) (k : Text) → has m k ≡ contains (keys m) k
unfolding lookup contains
has-contains [] k = refl
has-contains ((j, v) ∷ m) k = ground (arith, has-contains m k)

pub lookup-delete {ℓ} :
    {V : Type ℓ} (k j : Text) (m : Dict V)
    → IsUnique (keys m)
    → lookup j (delete k m) ≡ (if text_eq k j then none else lookup j m)
unfolding lookup delete contains
lookup-delete k j [] u = ground arith
lookup-delete k j ((i, w) ∷ m) u = ground (
  arith,
  text_eq_iff k j,
  text_eq_iff i k,
  text_eq_iff i j,
  lookup-delete k j m u.1,
  lookup-none k m,
)

pub contains-keys-insert {ℓ} :
    {V : Type ℓ} (k j : Text) (v : V) (m : Dict V)
    → contains (keys (insert k v m)) j ≡ (text_eq k j || contains (keys m) j)
unfolding insert contains
contains-keys-insert k j v [] = ground arith
contains-keys-insert k j v ((i, w) ∷ m) =
    ground (arith, text_eq_iff i k, contains-keys-insert k j v m)

pub contains-keys-delete {ℓ} :
    {V : Type ℓ} (k j : Text) (m : Dict V)
    → contains (keys m) j ≡ false
    → contains (keys (delete k m)) j ≡ false
unfolding delete contains
contains-keys-delete k j [] h = refl
contains-keys-delete k j ((i, w) ∷ m) h = ground (arith, contains-keys-delete k j m)

pub insert-IsUnique {ℓ} :
    {V : Type ℓ} (k : Text) (v : V) (m : Dict V)
    → IsUnique (keys m)
    → IsUnique (keys (insert k v m))
unfolding insert contains
insert-IsUnique k v [] u = (refl, tt)
insert-IsUnique k v ((i, w) ∷ m) u = elim (Bool-cases (text_eq i k)) [
  | inl e ↦ rw e (rw (sym ((text_eq_iff i k).0 e)) u.0, u.1)
  | inr e ↦ rw e (
    ground (arith, contains-keys-insert k i v m, text_eq_iff k i, text_eq_iff i k, u.0),
    insert-IsUnique k v m u.1,
  )
]

pub delete-IsUnique {ℓ} :
    {V : Type ℓ} (k : Text) (m : Dict V) → IsUnique (keys m) → IsUnique (keys (delete k m))
unfolding delete
delete-IsUnique k [] u = tt
delete-IsUnique k ((i, w) ∷ m) u = elim (Bool-cases (text_eq i k)) [
  | inl e ↦ rw e u.1
  | inr e ↦ rw e (contains-keys-delete k i m u.0, delete-IsUnique k m u.1)
]

-- What is found after an assignment is the new value or was there.
pub insert-cases {ℓ} :
    {V : Type ℓ} (k j : Text) (v w : V) (m : Dict V)
    → lookup j (insert k v m) ≡ some w
    → ((k ≡ j) × (v ≡ w)) ⊎ ((text_eq k j ≡ false) × (lookup j m ≡ some w))
insert-cases k j v w m h = elim (Bool-cases (text_eq k j)) [
  | inl e ↦ inl ((text_eq_iff k j).0 e, some_eq v w (ground (arith, e, h, lookup-insert k j v m)))
  | inr e ↦ inr (e, ground (arith, e, h, lookup-insert k j v m))
]

-- What is found after a removal was there, at another key.
pub delete-cases {ℓ} :
    {V : Type ℓ} (k j : Text) (w : V) (m : Dict V)
    → IsUnique (keys m)
    → lookup j (delete k m) ≡ some w
    → (text_eq k j ≡ false) × (lookup j m ≡ some w)
delete-cases k j w m u h =
    (ground (arith, lookup-delete k j m u), ground (arith, lookup-delete k j m u))

-- The keys in order are the keys.
pub contains-sorted_keys {ℓ} :
    {V : Type ℓ} (m : Dict V) (k : Text) → contains (sorted_keys m) k ≡ contains (keys m) k
unfolding sorted_keys
contains-sorted_keys m k = contains-sort_by (keys m) k

pub sorted_keys-IsUnique {ℓ} :
    {V : Type ℓ} (m : Dict V) → IsUnique (keys m) → IsUnique (sorted_keys m)
unfolding sorted_keys
sorted_keys-IsUnique m u = IsUnique-times (sort_by text_le (keys m)) (λ x.
    ground (arith, sort_by-count text_le (λ y. text_eq y x) (keys m), times_unique (keys m) u x))

pub All-lookup {ℓ κ} :
    {V : Type ℓ} (P : V → Type κ) (m : Dict V) (k : Text) (v : V)
    → All (λ e. P e.1) m
    → lookup k m ≡ some v
    → P v
unfolding lookup
All-lookup P [] k v a h = cc
All-lookup P ((j, w) ∷ m) k v a h = elim (Bool-cases (text_eq j k)) [
  | inl e ↦ subst P (some_eq w v (rw e at h)) a.0
  | inr e ↦ All-lookup P m k v a.1 (rw e at h)
]

pub All-insert {ℓ κ} :
    {V : Type ℓ} (P : V → Type κ) (m : Dict V) (k : Text) (v : V)
    → P v
    → All (λ e. P e.1) m
    → All (λ e. P e.1) (insert k v m)
unfolding insert
All-insert P [] k v h a = (h, tt)
All-insert P ((j, w) ∷ m) k v h a = elim (Bool-cases (text_eq j k)) [
  | inl e ↦ rw e (h, a.1)
  | inr e ↦ rw e (a.0, All-insert P m k v h a.1)
]

-- What holds of all entries holds of what is found, and the other way round.
pub All-entries {ℓ κ} :
    {V : Type ℓ} (P : Text → V → Type κ) (m : Dict V) (k : Text) (v : V)
    → All (λ e. P e.0 e.1) m
    → lookup k m ≡ some v
    → P k v
unfolding lookup
All-entries P [] k v a h = cc
All-entries P ((j, w) ∷ m) k v a h = elim (Bool-cases (text_eq j k)) [
  | inl e ↦
      subst (λ (i : Text). P i v) ((text_eq_iff j k).0 e)
        (subst (P j) (some_eq w v (rw e at h)) a.0)
  | inr e ↦ All-entries P m k v a.1 (rw e at h)
]

pub lookup-later {ℓ} :
    {V : Type ℓ} (j k : Text) (w v : V) (m : Dict V)
    → contains (keys m) j ≡ false
    → lookup k m ≡ some v
    → lookup k ((j, w) ∷ m) ≡ some v
unfolding lookup
lookup-later j k w v m u e = ground (arith, text_eq_iff j k, lookup-none k m)

pub lookup-All {ℓ κ} :
    {V : Type ℓ} (P : Text → V → Type κ) (m : Dict V)
    → IsUnique (keys m)
    → ((k : Text) (v : V) → lookup k m ≡ some v → P k v)
    → All (λ e. P e.0 e.1) m
unfolding lookup
lookup-All P [] u h = tt
lookup-All P ((j, w) ∷ m) u h = (
  h j w (rw (text_eq_self j) refl),
  lookup-All P m u.1 (λ k v e. h k v (lookup-later j k w v m u.0 e)),
)

pub has-insert {ℓ} :
    {V : Type ℓ} (k j : Text) (v : V) (m : Dict V) → has (insert k v m) j ≡ (text_eq k j || has m j)
has-insert k j v m =
    ground (arith, has-contains (insert k v m) j, has-contains m j, contains-keys-insert k j v m)

pub has_entry {ℓ} :
    {V : Type ℓ} (k j : Text) (v : V) (m : Dict V) → has ((k, v) ∷ m) j ≡ (text_eq k j || has m j)
unfolding lookup
has_entry k j v m = ground arith

module _ {ℓ} {V : Type ℓ} where
  pub get_or-some : (m : Dict V) (k : Text) (v d : V) → lookup k m ≡ some v → get_or m k d ≡ v
  get_or-some m k v d h = rw (h, get_or) refl

  pub get_or-none : (m : Dict V) (k : Text) (d : V) → lookup k m ≡ none → get_or m k d ≡ d
  get_or-none m k d h = rw (h, get_or) refl

  pub get_or-insert :
      (k j : Text) (v d : V) (m : Dict V)
      → get_or (insert k v m) j d ≡ (if text_eq k j then v else get_or m j d)
  get_or-insert k j v d m = ground (arith, lookup-insert k j v m)

pub lookup_entry {ℓ} :
    {V : Type ℓ} (k j : Text) (v : V) (m : Dict V)
    → lookup j ((k, v) ∷ m) ≡ (if text_eq k j then some v else lookup j m)
unfolding lookup
lookup_entry k j v m = refl

pub All-insert_entry {ℓ κ} :
    {V : Type ℓ} (P : Text → V → Type κ) (m : Dict V) (k : Text) (v : V)
    → P k v
    → All (λ e. P e.0 e.1) m
    → All (λ e. P e.0 e.1) (insert k v m)
unfolding insert
All-insert_entry P [] k v h a = (h, tt)
All-insert_entry P ((j, w) ∷ m) k v h a = elim (Bool-cases (text_eq j k)) [
  | inl e ↦ rw e (h, a.1)
  | inr e ↦ rw e (a.0, All-insert_entry P m k v h a.1)
]

pub All-keys {ℓ κ} :
    {V : Type ℓ} (P : Text → Type κ) (m : Dict V) → All (λ e. P e.0) m → All P (keys m)
All-keys P [] a = tt
All-keys P ((k, v) ∷ m) a = (a.0, All-keys P m a.1)
