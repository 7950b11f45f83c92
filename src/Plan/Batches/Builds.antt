-- ===== src/Plan/Batches/Builds.antt =====
-- Which builds the ordered list has.
use nix_ci_worker.Base.{
  ◌≡◌, refl, ap, Text, Dict, List, [], ◌∷◌, none, some, Bool, true, false, not, ◌&&◌, ◌||◌,
  contains, text_eq, text_eq_iff, text_eq_self, map, count, count-append, bit, times, IsUnique,
  arith, lookup, insert, Option-cases, Bool-cases, inl, inr, lookup-insert,
}
use nix_ci_worker.Plan.Batches.{before_caret, selection, pick}
use nix_ci_worker.Plan.Batches.Order.{picked}

-- The build is the one that is selected for its derivation.
abbrev is_selected : Dict Text → Text → Bool
is_selected m s = elim (lookup (before_caret s) m) [ none ↦ false | some v ↦ text_eq v s ]

contains-map :
    (f : Text → Text) (xs : List Text) (x : Text)
    → contains xs x ≡ true
    → contains (map f xs) (f x) ≡ true
unfolding contains
contains-map f [] x h = cc
contains-map f (y ∷ ys) x h =
    ground (arith, text_eq_iff y x, text_eq_iff (f y) (f x), contains-map f ys x)

-- Of builds of distinct derivations every one is selected.
is_selected-selection :
    (missing : List Text) (m : Dict Text) (s : Text)
    → IsUnique (map before_caret missing)
    → is_selected (selection missing m) s ≡ (
        contains missing s
        || (not (contains (map before_caret missing) (before_caret s)) && is_selected m s))
unfolding selection contains
is_selected-selection [] m s u = ground arith
is_selected-selection (x ∷ xs) m s u = ground (
  arith,
  is_selected-selection xs (insert (before_caret x) x m) s u.1,
  lookup-insert (before_caret x) (before_caret s) x m,
  contains-map before_caret xs s,
  text_eq_iff x s,
  text_eq_iff (before_caret x) (before_caret s),
)

-- A selected build stands at its derivation.
abbrev IsKeyed : Dict Text → Type 0
IsKeyed m = (d v : Text) → lookup d m ≡ some v → before_caret v ≡ d

selection-IsKeyed :
    (missing : List Text) (m : Dict Text) → IsKeyed m → IsKeyed (selection missing m)
unfolding selection
selection-IsKeyed [] m k = k
selection-IsKeyed (x ∷ xs) m k = selection-IsKeyed xs (insert (before_caret x) x m) (λ d v h.
    ground (arith, lookup-insert (before_caret x) d x m, k d v, text_eq_iff (before_caret x) d))

times-pick :
    (m : Dict Text) (d s : Text)
    → IsKeyed m
    → times s (pick m d) ≡ bit (text_eq d (before_caret s) && is_selected m s)
unfolding count
times-pick m d s k = elim (Option-cases (lookup d m)) [
  | inl e ↦ elim (Bool-cases (text_eq d (before_caret s))) [
    | inl same ↦ ground (arith, (text_eq_iff d (before_caret s)).0 same, at d (before_caret s))
    | inr other ↦ ground arith
  ]
  | inr (v, e) ↦ elim (Bool-cases (text_eq d (before_caret s))) [
    | inl same ↦ ground (arith, (text_eq_iff d (before_caret s)).0 same, at d (before_caret s))
    | inr other ↦
        ground (arith, k d v e, text_eq_iff v s, text_eq_iff d (before_caret s), text_eq_self d)
  ]
]
  where
    at : (x y : Text) → x ≡ y → lookup x m ≡ lookup y m
    at x y e = ap (λ z. lookup z m) e

times-picked :
    (m : Dict Text) (done : List Text) (s : Text)
    → IsKeyed m
    → IsUnique done
    → times s (picked m done) ≡ bit (contains done (before_caret s) && is_selected m s)
unfolding count contains
times-picked m [] s k u = refl
times-picked m (d ∷ done) s k u = ground (
  arith,
  count-append (λ y. text_eq y s) (picked m done) (pick m d),
  times-picked m done s k u.1,
  times-pick m d s k,
  text_eq_iff d (before_caret s),
)

pub builds :
    (missing done : List Text) (s : Text)
    → IsUnique (map before_caret missing)
    → IsUnique done
    → times s (picked (selection missing []) done)
      ≡ bit (contains done (before_caret s) && contains missing s)
unfolding lookup
builds missing done s u v = ground (
  arith,
  times-picked (selection missing []) done s (selection-IsKeyed missing [] (λ d w h. cc)) v,
  is_selected-selection missing [] s u,
)
