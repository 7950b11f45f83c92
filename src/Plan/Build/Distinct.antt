-- ===== src/Plan/Build/Distinct.antt =====
-- `Missing` of worker/planner.go names each derivation once, as `Batches` and the assigner assume.
use nix_ci_worker.Base.{
  ◌⊎◌, ◌≡◌, ◌==◌, ◌∙◌, refl, sym, ap, arith, Text, Dict, List, [], ◌∷◌, ◌++◌, Bool, true, false,
  any, text_eq_self, contains, codes, map, keys, get_or, sorted_keys, contains-sorted_keys,
  sorted_keys-IsUnique, IsUnique, All, All_contains, List-cases, Bool-cases, inl, inr, subst,
}
use nix_ci_worker.Plan.Types.{Plan}
use nix_ci_worker.Plan.Batches.{before_caret}
use nix_ci_worker.Plan.Build.{lacking, join_names, missing_from, missing}

-- The string has no caret.
abbrev pub IsPlain : Text → Type 0
IsPlain s = any (λ c. c == b'^') s ≡ false

before_caret-append :
    (drv rest : Text) → IsPlain drv → before_caret (drv ++ codes "^" ++ rest) ≡ drv
unfolding before_caret
before_caret-append [] rest h = refl
before_caret-append (c ∷ drv) rest h = elim (Bool-cases (c == b'^')) [
  | inl e ↦ ground (arith, h, e)
  | inr e ↦ rw e (ap (◌∷◌ c) (before_caret-append drv rest (ground (arith, h))))
]

module _ (outputs : Dict (Dict Text)) (covers local : Text → Bool) where
  named : List Text → List Text
  named drvs = map before_caret (missing_from outputs covers local drvs)

  -- A derivation is named or skipped.
  named-cons :
      (drv : Text) (drvs : List Text)
      → IsPlain drv
      → (named (drv ∷ drvs) ≡ named drvs) ⊎ (named (drv ∷ drvs) ≡ drv ∷ named drvs)
  unfolding named missing_from
  named-cons drv drvs plain =
      elim (List-cases
        (lacking (get_or outputs drv []) covers local (sorted_keys (get_or outputs drv [])))) [
          | inl e ↦ inl (rw (e, missing_from) refl)
          | inr (n, ns, e) ↦ inr (
              rw (e, missing_from)
                (ap (λ x. x ∷ named drvs) (before_caret-append drv (join_names (n ∷ ns)) plain)))
        ]

  contains-named :
      (drvs : List Text) (x : Text)
      → All IsPlain drvs
      → contains drvs x ≡ false
      → contains (named drvs) x ≡ false
  unfolding contains named missing_from
  contains-named [] x a h = refl
  contains-named (drv ∷ drvs) x a h = elim (named-cons drv drvs a.0) [
    | inl e ↦ ap (λ l. contains l x) e ∙ contains-named drvs x a.1 (ground (arith, h))
    | inr e ↦ ap (λ l. contains l x) e ∙ ground (arith, h, contains-named drvs x a.1)
  ]

  named-IsUnique : (drvs : List Text) → All IsPlain drvs → IsUnique drvs → IsUnique (named drvs)
  unfolding named missing_from
  named-IsUnique [] a u = tt
  named-IsUnique (drv ∷ drvs) a u = elim (named-cons drv drvs a.0) [
    | inl e ↦ subst IsUnique (sym e) (named-IsUnique drvs a.1 u.1)
    | inr e ↦ subst IsUnique (sym e) (contains-named drvs drv a.1 u.0, named-IsUnique drvs a.1 u.1)
  ]

IsPlain-sorted :
    (m : Dict (Dict Text)) (xs : List Text)
    → ((x : Text) → contains xs x ≡ true → contains (keys m) x ≡ true)
    → All IsPlain (keys m)
    → All IsPlain xs
unfolding contains
IsPlain-sorted m [] h a = tt
IsPlain-sorted m (x ∷ xs) h a = (
  All_contains IsPlain (keys m) x a (h x (ground (arith, text_eq_self x))),
  IsPlain-sorted m xs (λ y k. h y (ground (arith, k))) a,
)

-- The builds that `Missing` lists are of distinct derivations, if the plan's outputs are a map and no derivation's name has a caret.
pub missing_distinct :
    (p : Plan) (covers local : Text → Bool)
    → IsUnique (keys p.outputs)
    → All IsPlain (keys p.outputs)
    → IsUnique (map before_caret (missing p covers local))
unfolding missing named
missing_distinct p covers local u plain =
    named-IsUnique p.outputs covers local (sorted_keys p.outputs)
      (IsPlain-sorted p.outputs (sorted_keys p.outputs)
        (λ x k. sym (contains-sorted_keys p.outputs x) ∙ k) plain)
      (sorted_keys-IsUnique p.outputs u)
