-- ===== src/Tests/PlanRuns.antt =====
-- The plan of worker/planner.go for one program and the library that it is built with.
use nix_ci_worker.Base.{
  ◌≡◌, refl, Text, Dict, [], ◌∷◌, some, true, false, ◌||◌, any, codes, text_eq, text_le, contains,
  add_member, lookup, insert, map, IsUnique, ok, has_prefix, drop_prefix, has_suffix, sort_by,
  sorted_keys,
}
use nix_ci_worker.Plan.Types.{Plan, Derivation, no_derivation, derivation}
use nix_ci_worker.Plan.Batches.{before_caret}
use nix_ci_worker.Plan.Build.{
  add_all, add_outputs, check_targets, add_required, new_plan, complete, lacking, join_names,
  missing_from, missing, add_named, add_inputs, build_inputs,
}
use nix_ci_worker.Plan.Build.Required.{mentions, required_exact}
use nix_ci_worker.Plan.Build.Lacks.{complete_lacks_nothing}
use nix_ci_worker.Plan.Build.Distinct.{missing_distinct}
use nix_ci_worker.Plan.Build.Inputs.{input_paths, build_inputs_exact}
use nix_ci_worker.Pool.Message.{native_name, name_byte}
use nix_ci_worker.Snapshot.Paths.{valid_store_path, hashed_name}

abbrev library : Text
library = codes "/nix/store/00000000000000000000000000000000-l.drv"

abbrev library_out : Text
library_out = codes "/nix/store/11111111111111111111111111111111-l"

abbrev program : Text
program = codes "/nix/store/22222222222222222222222222222222-p.drv"

abbrev program_out : Text
program_out = codes "/nix/store/33333333333333333333333333333333-p"

abbrev derivations : Dict Derivation
derivations =
    (library, record no_derivation { outputs = (codes "out", library_out) ∷ [] })
    ∷ (
      program,
      record no_derivation {
        input_drvs =
            (library, record { outputs = some (codes "out" ∷ []); dynamic_outputs = [] }) ∷ [];
        outputs = (codes "out", program_out) ∷ [];
      },
    )
    ∷ []

abbrev targets : Dict Text
targets = (codes "p", program) ∷ []

abbrev made : Plan
made = record {
  targets = targets;
  derivations = derivations;
  required = program_out ∷ program ∷ library_out ∷ library ∷ [];
  outputs =
      (library, (codes "out", library_out) ∷ []) ∷ (program, (codes "out", program_out) ∷ []) ∷ [];
}

plan_is_made : new_plan targets derivations [] ≡ ok made
unfolding new_plan check_targets add_all add_required add_outputs add_member contains text_eq
    native_name name_byte lookup insert has_prefix drop_prefix has_suffix
plan_is_made = refl

required_exact_example :
    contains made.required library_out
    ≡ (contains [] library_out || mentions derivations library_out)
required_exact_example = required_exact targets derivations [] made library_out plan_is_made

made_complete : complete made (λ x. true) ≡ true
unfolding complete text_eq
made_complete = refl

complete_lacks_nothing_example : missing made (λ x. true) (λ x. false) ≡ []
complete_lacks_nothing_example =
    complete_lacks_nothing targets derivations [] made (λ x. true) (λ x. false) plan_is_made
      made_complete

-- Neither store has the library.
made_missing :
    missing made (λ x. text_eq x program_out) (λ x. false)
    ≡ (codes "/nix/store/00000000000000000000000000000000-l.drv^out") ∷ []
unfolding missing missing_from lacking join_names lookup text_eq sorted_keys sort_by text_le
made_missing = refl

missing_distinct_example :
    IsUnique (map before_caret (missing made (λ x. text_eq x program_out) (λ x. false)))
unfolding contains text_eq
missing_distinct_example =
    missing_distinct made (λ x. text_eq x program_out) (λ x. false) (refl, (refl, tt))
      (refl, (refl, tt))

inputs_found : build_inputs made program ≡ ok (library_out ∷ program ∷ [])
unfolding build_inputs add_inputs add_named add_all add_member contains text_eq lookup
    valid_store_path hashed_name has_prefix drop_prefix sort_by text_le
inputs_found = refl

build_inputs_exact_example :
    (contains (library_out ∷ program ∷ []) library_out ≡ (
      any (λ e. input_paths made e.1 e.0 library_out) (derivation made program).input_drvs
      || contains (derivation made program).input_srcs library_out
      || text_eq program library_out))
    × (contains (library_out ∷ program ∷ []) library_out ≡ true
        → valid_store_path library_out ≡ true)
build_inputs_exact_example = build_inputs_exact made program _ library_out inputs_found
