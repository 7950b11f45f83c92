-- ===== src/Base/Strings.antt =====
-- Go strings: sequences of bytes, with equality, the byte order and what `strings` offers.
use Prim.Native.Nat.{ℕ, zero, suc, ◌+◌, ◌/◌, ◌%◌}
use Prim.Native.Char.{code}
use Prim.Native.String.{String}
use mathlib.Core.Path.{◌≡◌, refl, sym}
use mathlib.Core.Logic.{◌↔◌, inl, inr}
use mathlib.Core.Bool.{Bool, true, false, ◌&&◌, ◌||◌, false≢true}
use mathlib.Core.List.{List, [], ◌∷◌, ◌++◌}
use native.Mathlib.Omega.{arith}
use nix_ci_worker.Base.Tests.{◌==◌, ltb, if◌then◌else◌, Bool-cases}
use nix_ci_worker.Base.Lists.{all}

abbrev pub Text : Type 0
Text = List ℕ

-- The bytes of an ASCII literal.
abbrev pub codes : String → Text
codes String.[] = []
codes (String.◌∷◌ c s) = code c ∷ codes s

unfoldable pub text_eq : Text → Text → Bool
text_eq [] [] = true
text_eq [] (b ∷ t) = false
text_eq (a ∷ s) [] = false
text_eq (a ∷ s) (b ∷ t) = a == b && text_eq s t

pub text_eq_iff : (s t : Text) → (text_eq s t ≡ true) ↔ (s ≡ t)
unfolding text_eq
text_eq_iff [] [] = (λ _. refl, λ _. refl)
text_eq_iff [] (b ∷ t) = ground arith
text_eq_iff (a ∷ s) [] = ground arith
text_eq_iff (a ∷ s) (b ∷ t) = ground (arith, text_eq_iff s t)

pub text_eq_self : (s : Text) → text_eq s s ≡ true
text_eq_self s = (text_eq_iff s s).1 refl

-- `<=` on Go strings compares byte by byte.
unfoldable pub text_le : Text → Text → Bool
text_le [] t = true
text_le (a ∷ s) [] = false
text_le (a ∷ s) (b ∷ t) = ltb a b || a == b && text_le s t

pub text_le_total : (s t : Text) → text_le s t ≡ false → text_le t s ≡ true
unfolding text_le
text_le_total [] t h = ground arith
text_le_total (a ∷ s) [] h = refl
text_le_total (a ∷ s) (b ∷ t) h = ground (arith, text_le_total s t)

-- strings.HasPrefix
unfoldable pub has_prefix : Text → Text → Bool
has_prefix s [] = true
has_prefix [] (b ∷ p) = false
has_prefix (a ∷ s) (b ∷ p) = a == b && has_prefix s p

-- strings.TrimPrefix
unfoldable pub drop_prefix : Text → Text → Text
drop_prefix s [] = s
drop_prefix [] (b ∷ p) = []
drop_prefix (a ∷ s) (b ∷ p) = drop_prefix s p

pub has_prefix_lem : (s p : Text) → has_prefix s p ≡ true → s ≡ p ++ drop_prefix s p
unfolding has_prefix drop_prefix
has_prefix_lem s [] h = refl
has_prefix_lem [] (b ∷ p) h = elim (false≢true h) [ ]
has_prefix_lem (a ∷ s) (b ∷ p) h = ground (arith, has_prefix_lem s p)

pub has_prefix-append : (p s : Text) → has_prefix (p ++ s) p ≡ true
unfolding has_prefix
has_prefix-append [] s = refl
has_prefix-append (a ∷ p) s = ground (arith, has_prefix-append p s)

abbrev pub trim_prefix : Text → Text → Text
trim_prefix s p = if has_prefix s p then drop_prefix s p else s

-- strings.HasSuffix
unfoldable pub has_suffix : Text → Text → Bool
unfolding text_eq
has_suffix [] p = text_eq [] p
has_suffix (a ∷ s) p = text_eq (a ∷ s) p || has_suffix s p

-- slices.Contains over strings.
unfoldable pub contains : List Text → Text → Bool
unfolding text_eq
contains [] x = false
contains (y ∷ ys) x = text_eq y x || contains ys x

pub contains-append :
    (xs ys : List Text) (x : Text) → contains (xs ++ ys) x ≡ (contains xs x || contains ys x)
unfolding contains
contains-append [] ys x = refl
contains-append (z ∷ xs) ys x = ground (arith, contains-append xs ys x)

-- A Go map as a function: an assignment `m[k] = v`.
abbrev pub update {ℓ} : {V : Type ℓ} → (Text → V) → Text → V → Text → V
update m k v j = if text_eq k j then v else m j

-- A Go array as a function: an assignment `a[i] = v`.
abbrev pub put {ℓ} : {V : Type ℓ} → (ℕ → V) → ℕ → V → ℕ → V
put a i v j = if i == j then v else a j

pub all-contains :
    (p : Text → Bool) (xs : List Text) (x : Text)
    → all p xs ≡ true
    → contains xs x ≡ true
    → p x ≡ true
unfolding contains
all-contains p [] x h k = elim (false≢true k) [ ]
all-contains p (y ∷ ys) x h k = ground (arith, text_eq_iff y x, all-contains p ys x)

pub contains_self : (x : Text) (xs : List Text) → contains (x ∷ xs) x ≡ true
unfolding contains
contains_self x xs = ground (arith, text_eq_self x)

-- A test that fails on a list fails at one of its members.
pub all_failing :
    (p : Text → Bool) (xs : List Text)
    → all p xs ≡ false
    → (x : Text) × (contains xs x ≡ true) × (p x ≡ false)
unfolding contains
all_failing p [] h = elim (false≢true (sym h)) [ ]
all_failing p (y ∷ ys) h = elim (Bool-cases (p y)) [
  | inl e ↦ let (x, k, l) = all_failing p ys (rw e at h) in (x, ground arith, l)
  | inr e ↦ (y, ground (arith, text_eq_self y), e)
]

pub contains_later :
    (y : Text) (xs : List Text) (x : Text) → contains xs x ≡ true → contains (y ∷ xs) x ≡ true
unfolding contains
contains_later y xs x h = ground arith

-- The digits of %d, the last one first to be cut off; as much fuel as the number suffices.
unfoldable pub decimal_from : ℕ → ℕ → Text
decimal_from zero n = []
decimal_from (suc fuel) n =
    let front = decimal_from fuel (n / 10) in
    if ltb n 10 then (48 + n) ∷ [] else front ++ (48 + n % 10) ∷ []

abbrev pub decimal : ℕ → Text
decimal n = decimal_from (suc n) n
