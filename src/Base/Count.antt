-- ===== src/Base/Count.antt =====
-- Counting over a list, and what a write or a removal at an index does to a count.
use Prim.Native.Nat.{ℕ, zero, suc, ◌+◌, ◌≤◌}
use mathlib.Core.Path.{◌≡◌, refl, subst}
use mathlib.Core.Logic.{◌↔◌, inl, inr}
use mathlib.Core.Bool.{Bool, true, false, not}
use mathlib.Core.List.{List, [], ◌∷◌, ◌++◌}
use mathlib.Core.Option.{Option, none, some}
use native.Mathlib.Omega.{arith}
use nix_ci_worker.Base.Tests.{if◌then◌else◌, Bool-cases}
use nix_ci_worker.Base.Lists.{length}
use nix_ci_worker.Base.Strings.{Text, text_eq, text_eq_self, text_eq_iff, contains, update}

abbrev pub bit : Bool → ℕ
bit b = if b then 1 else 0

module _ {ℓ} {A : Type ℓ} where
  unfoldable pub count : (A → Bool) → List A → ℕ
  count p [] = 0
  count p (x ∷ xs) = bit (p x) + count p xs

  abbrev pub get_elem? : List A → ℕ → Option A
  get_elem? [] i = none
  get_elem? (x ∷ xs) zero = some x
  get_elem? (x ∷ xs) (suc i) = get_elem? xs i

  abbrev pub set : List A → ℕ → A → List A
  set [] i v = []
  set (x ∷ xs) zero v = v ∷ xs
  set (x ∷ xs) (suc i) v = x ∷ set xs i v

  abbrev pub remove_at : List A → ℕ → List A
  remove_at [] i = []
  remove_at (x ∷ xs) zero = xs
  remove_at (x ∷ xs) (suc i) = x ∷ remove_at xs i

  abbrev pub All {κ} : (A → Type κ) → List A → Type κ
  All P [] = Unit
  All P (x ∷ xs) = P x × All P xs

module _ {ℓ} {A : Type ℓ} where
  pub count-remove_at :
      (p : A → Bool) (xs : List A) (i : ℕ) (x : A)
      → get_elem? xs i ≡ some x
      → count p xs ≡ bit (p x) + count p (remove_at xs i)
  unfolding count
  count-remove_at p [] i x h = ground arith
  count-remove_at p (y ∷ xs) zero x h = ground arith
  count-remove_at p (y ∷ xs) (suc i) x h = omega (arith, count-remove_at p xs i x h)

  pub count-set :
      (p : A → Bool) (xs : List A) (i : ℕ) (x y : A)
      → get_elem? xs i ≡ some x
      → count p (set xs i y) + bit (p x) ≡ count p xs + bit (p y)
  unfolding count
  count-set p [] i x y h = ground arith
  count-set p (z ∷ xs) zero x y h = ground arith
  count-set p (z ∷ xs) (suc i) x y h = omega (arith, count-set p xs i x y h)

  pub count_mono :
      (p q : A → Bool) (xs : List A) → ((x : A) → p x ≡ true → q x ≡ true) → count p xs ≤ count q xs
  unfolding count
  count_mono p q [] h = omega arith
  count_mono p q (x ∷ xs) h = ground (arith, h x, count_mono p q xs h)

  pub count-le-length : (p : A → Bool) (xs : List A) → count p xs ≤ length xs
  unfolding count
  count-le-length p [] = omega arith
  count-le-length p (x ∷ xs) = ground (arith, count-le-length p xs)

  pub some_eq : (x y : A) → some x ≡ some y → x ≡ y
  some_eq x y h = cc

  pub All-get {κ} :
      (P : A → Type κ) (xs : List A) (i : ℕ) (x : A) → All P xs → get_elem? xs i ≡ some x → P x
  All-get P [] i x a h = cc
  All-get P (y ∷ xs) zero x a h = subst P (some_eq y x h) a.0
  All-get P (y ∷ xs) (suc i) x a h = All-get P xs i x a.1 h

  pub All-remove_at {κ} : (P : A → Type κ) (xs : List A) (i : ℕ) → All P xs → All P (remove_at xs i)
  All-remove_at P [] i a = tt
  All-remove_at P (y ∷ xs) zero a = a.1
  All-remove_at P (y ∷ xs) (suc i) a = (a.0, All-remove_at P xs i a.1)

  pub All-set {κ} :
      (P : A → Type κ) (xs : List A) (i : ℕ) (v : A) → P v → All P xs → All P (set xs i v)
  All-set P [] i v h a = tt
  All-set P (y ∷ xs) zero v h a = (h, a.1)
  All-set P (y ∷ xs) (suc i) v h a = (a.0, All-set P xs i v h a.1)

  pub All-map {κ μ} :
      {P : A → Type κ} {Q : A → Type μ} (xs : List A) → ((x : A) → P x → Q x) → All P xs → All Q xs
  All-map [] f a = tt
  All-map (x ∷ xs) f a = (f x a.0, All-map xs f a.1)

  -- A count of zero: nothing in the list passes.
  pub All-count_zero : (p : A → Bool) (xs : List A) → count p xs ≡ 0 → All (λ x. p x ≡ false) xs
  unfolding count
  All-count_zero p [] h = tt
  All-count_zero p (x ∷ xs) h = (ground arith, All-count_zero p xs (ground arith))

  pub All-zip {κ μ} :
      (P : A → Type κ) (Q : A → Type μ) (xs : List A)
      → All P xs
      → All Q xs
      → All (λ x. P x × Q x) xs
  All-zip P Q [] a b = tt
  All-zip P Q (x ∷ xs) a b = ((a.0, b.0), All-zip P Q xs a.1 b.1)

-- The keys of a Go map: no string twice.
abbrev pub IsUnique : List Text → Type 0
IsUnique [] = Unit
IsUnique (x ∷ xs) = (contains xs x ≡ false) × IsUnique xs

-- An assignment at a key that is not listed does not change a count.
pub count-update_ne {ℓ} :
    {V : Type ℓ} (g : V → Bool) (m : Text → V) (k : Text) (v : V) (xs : List Text)
    → contains xs k ≡ false
    → count (λ x. g (update m k v x)) xs ≡ count (λ x. g (m x)) xs
unfolding count contains
count-update_ne g m k v [] h = refl
count-update_ne g m k v (x ∷ xs) h =
    ground (arith, text_eq_iff x k, text_eq_iff k x, count-update_ne g m k v xs)

-- An assignment at a listed key changes a count by that key's part.
pub count-update {ℓ} :
    {V : Type ℓ} (g : V → Bool) (m : Text → V) (k : Text) (v : V) (xs : List Text)
    → IsUnique xs
    → contains xs k ≡ true
    → count (λ x. g (update m k v x)) xs + bit (g (m k)) ≡ count (λ x. g (m x)) xs + bit (g v)
unfolding count contains
count-update g m k v [] u h = cc
count-update g m k v (x ∷ xs) u h = ground (
  arith,
  text_eq_iff x k,
  text_eq_iff k x,
  count-update_ne g m k v xs,
  count-update g m k v xs u.1,
)

pub All_contains {κ} :
    (P : Text → Type κ) (xs : List Text) (x : Text) → All P xs → contains xs x ≡ true → P x
unfolding contains
All_contains P [] x a h = cc
All_contains P (y ∷ ys) x a h = elim (Bool-cases (text_eq y x)) [
  | inl e ↦ subst P ((text_eq_iff y x).0 e) a.0
  | inr e ↦ All_contains P ys x a.1 (rw e at h)
]

pub count_ext {ℓ} :
    {A : Type ℓ} (p q : A → Bool) (xs : List A) → ((x : A) → p x ≡ q x) → count p xs ≡ count q xs
unfolding count
count_ext p q [] h = refl
count_ext p q (x ∷ xs) h = ground (arith, h x, count_ext p q xs h)

pub count-append {ℓ} :
    {A : Type ℓ} (p : A → Bool) (xs ys : List A) → count p (xs ++ ys) ≡ count p xs + count p ys
unfolding count
count-append p [] ys = omega arith
count-append p (x ∷ xs) ys = omega (arith, count-append p xs ys)

-- How often a string is listed.
abbrev pub times : Text → List Text → ℕ
times x xs = count (λ y. text_eq y x) xs

pub contains-times : (xs : List Text) (x : Text) → (contains xs x ≡ true) ↔ (1 ≤ times x xs)
unfolding count contains
contains-times [] x = (λ h. cc, λ h. absurd (omega arith))
contains-times (y ∷ ys) x = ground (arith, contains-times ys x)

pub times_unique : (xs : List Text) → IsUnique xs → (x : Text) → times x xs ≡ bit (contains xs x)
unfolding count contains
times_unique [] u x = refl
times_unique (y ∷ ys) u x = ground (arith, times_unique ys u.1 x, text_eq_iff y x)

pub count_none {ℓ} : {A : Type ℓ} (xs : List A) → count (λ _. false) xs ≡ 0
unfolding count
count_none [] = refl
count_none (x ∷ xs) = omega (arith, count_none xs)

-- Distinct members of a list of distinct strings: as many as they are.
pub count-contains :
    (xs ys : List Text)
    → IsUnique xs
    → IsUnique ys
    → ((x : Text) → contains xs x ≡ true → contains ys x ≡ true)
    → count (contains xs) ys ≡ length xs
unfolding contains
count-contains [] ys u v h = count_none ys
count-contains (x ∷ xs) ys u v h =
    let known = h x (ground (arith, text_eq_iff x x)) in
    let same = count_ext (contains (x ∷ xs)) (update (contains xs) x true) ys (λ y. ground arith) in
    ground (
      arith,
      same,
      count-update (λ b. b) (contains xs) x true ys v known,
      count-contains xs ys u.1 v (λ y k. h y (ground arith)),
    )

pub count_full {ℓ} :
    {A : Type ℓ} (p : A → Bool) (xs : List A) → count p xs ≡ length xs → All (λ x. p x ≡ true) xs
unfolding count
count_full p [] h = tt
count_full p (x ∷ xs) h =
    let room = count-le-length p xs in
    (ground (arith, room), count_full p xs (ground (arith, room)))

pub IsUnique-times : (xs : List Text) → ((x : Text) → times x xs ≤ 1) → IsUnique xs
unfolding count
IsUnique-times [] h = tt
IsUnique-times (x ∷ xs) h = (
  ground (arith, h x, text_eq_self x, contains-times xs x),
  IsUnique-times xs (λ y. ground (arith, h y)),
)

-- Adding a string to a set takes it from what is not in the set.
pub count_marked :
    (xs done : List Text) (d : Text)
    → IsUnique xs
    → contains done d ≡ false
    → count (λ i. not (contains (d ∷ done) i)) xs + bit (contains xs d)
      ≡ count (λ i. not (contains done i)) xs
unfolding count contains
count_marked [] done d u h = refl
count_marked (x ∷ xs) done d u h =
    ground (arith, text_eq_iff x d, text_eq_iff d x, count_marked xs done d u.1 h)

pub count_ext_members :
    (p q : Text → Bool) (xs : List Text)
    → ((x : Text) → contains xs x ≡ true → p x ≡ q x)
    → count p xs ≡ count q xs
unfolding count contains
count_ext_members p q [] h = refl
count_ext_members p q (x ∷ xs) h =
    ground (arith, h x, text_eq_self x, count_ext_members p q xs (λ y k. h y (ground arith)))

pub count_every {ℓ} : {A : Type ℓ} (xs : List A) → count (λ _. true) xs ≡ length xs
unfolding count
count_every [] = refl
count_every (x ∷ xs) = omega (arith, count_every xs)

pub All-members {κ} :
    (P : Text → Type κ) (xs : List Text) → ((x : Text) → contains xs x ≡ true → P x) → All P xs
unfolding contains
All-members P [] h = tt
All-members P (x ∷ xs) h =
    (h x (ground (arith, text_eq_self x)), All-members P xs (λ y k. h y (ground (arith, k))))
