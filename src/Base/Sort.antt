-- ===== src/Base/Sort.antt =====
-- `slices.Sort` and `slices.SortStableFunc`, as stable insertion.
use mathlib.Core.Path.{◌≡◌, refl}
use mathlib.Core.Bool.{Bool, true}
use mathlib.Core.List.{List, [], ◌∷◌, Perm}
use mathlib.Core.List.Perm
use mathlib.Core.Logic.{inl, inr}
use Prim.Native.Nat.{◌+◌}
use native.Mathlib.Omega.{arith}
use nix_ci_worker.Base.Tests.{if◌then◌else◌, Bool-cases}
use nix_ci_worker.Base.Count.{All, count, bit, contains-times}
use nix_ci_worker.Base.Strings.{Text, text_eq, text_le, contains}

module _ {ℓ} {A : Type ℓ} (before : A → A → Bool) where
  unfoldable pub insert_by : A → List A → List A
  insert_by x [] = x ∷ []
  insert_by x (y ∷ ys) = if before x y then x ∷ y ∷ ys else y ∷ insert_by x ys

  unfoldable pub sort_by : List A → List A
  unfolding insert_by
  sort_by [] = []
  sort_by (x ∷ xs) = insert_by x (sort_by xs)

  -- Every element comes before all that follow it.
  abbrev pub IsSortedBy : List A → Type ℓ
  IsSortedBy [] = Unit
  IsSortedBy (x ∷ xs) = All (λ y. before x y ≡ true) xs × IsSortedBy xs

  insert_by-perm : (x : A) (xs : List A) → Perm (insert_by x xs) (x ∷ xs)
  unfolding insert_by
  insert_by-perm x [] = Perm.refl _
  insert_by-perm x (y ∷ ys) = elim (Bool-cases (before x y)) [
    | inl h ↦ rw h (Perm.refl _)
    | inr h ↦ rw h (Perm.trans (Perm.cons y (insert_by-perm x ys)) (Perm.swap x y ys))
  ]

  pub sort_by-perm : (xs : List A) → Perm (sort_by xs) xs
  unfolding sort_by
  sort_by-perm [] = Perm.refl _
  sort_by-perm (x ∷ xs) = Perm.trans (insert_by-perm x (sort_by xs)) (Perm.cons x (sort_by-perm xs))

  insert_by-count :
      (p : A → Bool) (x : A) (xs : List A) → count p (insert_by x xs) ≡ bit (p x) + count p xs
  unfolding insert_by count
  insert_by-count p x [] = refl
  insert_by-count p x (y ∷ ys) = ground (arith, insert_by-count p x ys)

  -- Sorting keeps every count.
  pub sort_by-count : (p : A → Bool) (xs : List A) → count p (sort_by xs) ≡ count p xs
  unfolding sort_by count
  sort_by-count p [] = refl
  sort_by-count p (x ∷ xs) = omega (arith, insert_by-count p x (sort_by xs), sort_by-count p xs)

pub contains-sort_by : (xs : List Text) (x : Text) → contains (sort_by text_le xs) x ≡ contains xs x
contains-sort_by xs x = ground (
  arith,
  contains-times xs x,
  contains-times (sort_by text_le xs) x,
  sort_by-count text_le (λ y. text_eq y x) xs,
)
