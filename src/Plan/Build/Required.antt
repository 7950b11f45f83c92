-- ===== src/Plan/Build/Required.antt =====
-- What `NewPlan` of worker/planner.go requires.
use nix_ci_worker.Base.{
  ◌≡◌, refl, arith, Text, Dict, List, [], ◌∷◌, Bool, true, false, not, ◌&&◌, ◌||◌, any, text_eq,
  contains, contains-add_member, add_member, has_prefix, has_suffix, codes, ok, passed, ok_parts,
  if◌then◌else◌, insert,
}
use nix_ci_worker.Plan.Types.{Plan, Derivation}
use nix_ci_worker.Plan.Build.{is_empty, add_all, add_outputs, check_targets, add_required, new_plan}

pub contains-add_all :
    (xs s : List Text) (x : Text) → contains (add_all xs s) x ≡ (contains xs x || contains s x)
unfolding add_all contains
contains-add_all [] s x = refl
contains-add_all (y ∷ ys) s x =
    ground (arith, contains-add_all ys (add_member y s) x, contains-add_member y x s)

abbrev pub has_path : Dict Text → Text → Bool
has_path os x = any (λ o. not (is_empty o.1) && text_eq o.1 x) os

pub contains-add_outputs :
    (os : Dict Text) (s : List Text) (x : Text)
    → contains (add_outputs os s) x ≡ (has_path os x || contains s x)
unfolding add_outputs contains
contains-add_outputs [] s x = refl
contains-add_outputs ((n, path) ∷ os) s x = ground (
  arith,
  contains-add_outputs os (if is_empty path then s else add_member path s) x,
  contains-add_member path x s,
)

-- A path that a derivation has: itself, a source, or an output whose path is known.
abbrev pub mentions : Dict Derivation → Text → Bool
mentions ds x = any (λ e. text_eq e.0 x || contains e.1.input_srcs x || has_path e.1.outputs x) ds

pub contains-add_required :
    (ds : Dict Derivation) (required : List Text) (outputs : Dict (Dict Text)) (x : Text)
    {made : List Text × Dict (Dict Text)}
    → add_required ds required outputs ≡ ok made
    → contains made.0 x ≡ (contains required x || mentions ds x)
unfolding add_required
contains-add_required [] required outputs x h = ground (arith, h)
contains-add_required ((drv, value) ∷ ds) required outputs x h =
    let next = add_outputs value.outputs (add_all value.input_srcs (add_member drv required)) in
    let (named, rest) =
      passed (has_prefix drv (codes "/nix/store/") && has_suffix drv (codes ".drv"))
        "invalid derivation" _ h in
    ground (
      arith,
      contains-add_required ds next (insert drv value.outputs outputs) x rest,
      contains-add_outputs value.outputs (add_all value.input_srcs (add_member drv required)) x,
      contains-add_all value.input_srcs (add_member drv required) x,
      contains-add_member drv x required,
    )

pub new_plan_parts :
    (targets : Dict Text) (ds : Dict Derivation) (requisites : List Text) (p : Plan)
    → new_plan targets ds requisites ≡ ok p
    → add_required ds (add_all requisites []) [] ≡ ok (p.required, p.outputs)
unfolding new_plan
new_plan_parts targets ds requisites p h =
    let (some_target, checks) =
      passed (not (elim targets [ [] ↦ true | t ∷ ts ↦ false ])) "invalid native targets" _ h in
    let (u, checked, adds) = ok_parts (check_targets ds targets) _ checks in
    let (made, added, same) = ok_parts (add_required ds (add_all requisites []) []) _ adds in cc

-- A plan that `NewPlan` makes requires exactly the requisites, the derivations, their sources and their outputs whose paths are known.
pub required_exact :
    (targets : Dict Text) (ds : Dict Derivation) (requisites : List Text) (p : Plan) (x : Text)
    → new_plan targets ds requisites ≡ ok p
    → contains p.required x ≡ (contains requisites x || mentions ds x)
unfolding contains
required_exact targets ds requisites p x h = ground (
  arith,
  contains-add_required ds (add_all requisites []) [] x (new_plan_parts targets ds requisites p h),
  contains-add_all requisites [] x,
)
