-- ===== src/Plan/Build/Lacks.antt =====
-- What `Missing` and `Complete` of worker/planner.go have to do with each other.
use nix_ci_worker.Base.{
  ◌≡◌, ◌∙◌, refl, sym, arith, Text, Dict, List, [], ◌∷◌, Option, none, some, Bool, true, false,
  false≢true, not, ◌&&◌, all, text_eq, contains, codes, keys, lookup, get_or, insert, sorted_keys,
  contains-sorted_keys, All, All-map, All-lookup, All-insert, all-contains, Bool-cases, inl, inr,
  ok, passed, add_member, contains-add_member, ok_eq, subst, text_eq_self, has_prefix, has_suffix,
}
use nix_ci_worker.Plan.Types.{Plan, Derivation}
use nix_ci_worker.Plan.Build.{
  is_empty, add_all, add_outputs, add_required, new_plan, complete, lacks, lacking, missing_from,
  missing,
}
use nix_ci_worker.Plan.Build.Required.{
  has_path, contains-add_outputs, contains-add_all, new_plan_parts,
}

-- Every output whose path is known is in the list.
abbrev Known : List Text → Dict Text → Type 0
Known required os = (x : Text) → has_path os x ≡ true → contains required x ≡ true

outputs-Known :
    (ds : Dict Derivation) (required : List Text) (outputs : Dict (Dict Text))
    {made : List Text × Dict (Dict Text)}
    → add_required ds required outputs ≡ ok made
    → All (λ e. Known required e.1) outputs
    → All (λ e. Known made.0 e.1) made.1
unfolding add_required
outputs-Known [] required outputs h a =
    subst (λ m. All (λ e. Known m.0 e.1) m.1) (ok_eq (required, outputs) _ h) a
outputs-Known ((drv, value) ∷ ds) required outputs h a =
    let sources = add_all value.input_srcs (add_member drv required) in
    let next = add_outputs value.outputs sources in
    let (named, rest) =
      passed (has_prefix drv (codes "/nix/store/") && has_suffix drv (codes ".drv"))
        "invalid derivation" _ h in
    outputs-Known ds next (insert drv value.outputs outputs) rest (
      All-insert (Known next) outputs drv value.outputs
        (λ x k. ground (arith, contains-add_outputs value.outputs sources x, k))
        (All-map outputs
          (λ e (f : Known required e.1). λ x k. ground (
            arith,
            f x k,
            contains-add_outputs value.outputs sources x,
            contains-add_all value.input_srcs (add_member drv required) x,
            contains-add_member drv x required,
          ))
          a))

-- Nothing lacks of the names that have what they need.
lacking-none :
    (outputs : Dict Text) (covers local : Text → Bool) (ns : List Text)
    → ((n : Text) → contains ns n ≡ true → lacks covers local (get_or outputs n []) ≡ false)
    → lacking outputs covers local ns ≡ []
unfolding lacking contains
lacking-none outputs covers local [] h = refl
lacking-none outputs covers local (n ∷ ns) h =
    ground
      (arith, h n, text_eq_self n, lacking-none outputs covers local ns (λ m k. h m (ground arith)))

missing_from-none :
    (outputs : Dict (Dict Text)) (covers local : Text → Bool) (drvs : List Text)
    → ((drv : Text)
        → lacking (get_or outputs drv []) covers local (sorted_keys (get_or outputs drv [])) ≡ [])
    → missing_from outputs covers local drvs ≡ []
unfolding missing_from
missing_from-none outputs covers local [] h = refl
missing_from-none outputs covers local (drv ∷ drvs) h =
    rw (h drv, missing_from) (missing_from-none outputs covers local drvs h)

-- An output's map in which every path is known and in the cache lacks nothing.
covered_lacks :
    (os : Dict Text) (covers local : Text → Bool) (n : Text)
    → all (λ o. not (is_empty o.1)) os ≡ true
    → ((x : Text) → has_path os x ≡ true → covers x ≡ true)
    → contains (keys os) n ≡ true
    → lacks covers local (get_or os n []) ≡ false
unfolding contains lookup
covered_lacks [] covers local n full c k = elim (false≢true k) [ ]
covered_lacks ((m, path) ∷ os) covers local n full c k = elim (Bool-cases (text_eq m n)) [
  | inl e ↦ ground (arith, e, full, c path, text_eq_self path)
  | inr e ↦ ground (
    arith,
    e,
    full,
    k,
    covered_lacks os covers local n (ground (arith, full)) (λ x h. c x (ground (arith, h)))
        (ground (arith, e, k)),
  )
]

own_lacks :
    (os : Dict Text) (covers local : Text → Bool)
    → all (λ o. not (is_empty o.1)) os ≡ true
    → ((x : Text) → has_path os x ≡ true → covers x ≡ true)
    → lacking os covers local (sorted_keys os) ≡ []
own_lacks os covers local full c =
    lacking-none os covers local (sorted_keys os)
      (λ n k. covered_lacks os covers local n full c (sym (contains-sorted_keys os n) ∙ k))

abbrev read_or_empty : Option (Dict Text) → Dict Text
read_or_empty o = elim o [ none ↦ [] | some os ↦ os ]

read_lacks :
    (outputs : Dict (Dict Text)) (drv : Text) (covers local : Text → Bool) (o : Option (Dict Text))
    → lookup drv outputs ≡ o
    → All (λ e. all (λ q. not (is_empty q.1)) e.1 ≡ true) outputs
    → All (λ e. (x : Text) → has_path e.1 x ≡ true → covers x ≡ true) outputs
    → lacking (read_or_empty o) covers local (sorted_keys (read_or_empty o)) ≡ []
read_lacks outputs drv covers local none e full c =
    own_lacks [] covers local refl (λ x k. elim (false≢true k) [ ])
read_lacks outputs drv covers local (some os) e full c =
    own_lacks os covers local
      (All-lookup (λ v. all (λ q. not (is_empty q.1)) v ≡ true) outputs drv os full e)
      (All-lookup (λ v. (x : Text) → has_path v x ≡ true → covers x ≡ true) outputs drv os c e)

all-All {ℓ} : {A : Type ℓ} (f : A → Bool) (xs : List A) → all f xs ≡ true → All (λ x. f x ≡ true) xs
all-All f [] h = tt
all-All f (x ∷ xs) h = (ground (arith, h), all-All f xs (ground (arith, h)))

complete_parts :
    (p : Plan) (covers : Text → Bool)
    → complete p covers ≡ true
    → (all (λ e. all (λ o. not (is_empty o.1)) e.1) p.outputs ≡ true)
      × (all covers p.required ≡ true)
unfolding complete
complete_parts p covers h = (ground (arith, h), ground (arith, h))

-- A plan that `NewPlan` made and that `Complete` finds complete lacks nothing, whatever the local store has.
pub complete_lacks_nothing :
    (targets : Dict Text) (ds : Dict Derivation) (requisites : List Text) (p : Plan)
    (covers local : Text → Bool)
    → new_plan targets ds requisites ≡ ok p
    → complete p covers ≡ true
    → missing p covers local ≡ []
unfolding missing
complete_lacks_nothing targets ds requisites p covers local made whole =
    let known =
      outputs-Known ds (add_all requisites []) [] (new_plan_parts targets ds requisites p made)
        tt in
    let (full, covered) = complete_parts p covers whole in
    missing_from-none p.outputs covers local (sorted_keys p.outputs) (λ drv.
      read_lacks p.outputs drv covers local (lookup drv p.outputs) refl
        (all-All (λ e. all (λ o. not (is_empty o.1)) e.1) p.outputs full)
        (All-map p.outputs
          (λ e (f : Known p.required e.1). λ x k. all-contains covers p.required x covered (f x k))
          known))
