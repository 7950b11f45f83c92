-- ===== src/Plan/Build.antt =====
-- worker/planner.go: a plan from its derivations, what it lacks and what a build of it needs.
pub mod Required
pub mod Lacks
pub mod Distinct
pub mod Inputs
use nix_ci_worker.Base.{
  ℕ, ◌≡◌, Text, Dict, List, [], ◌∷◌, ◌++◌, Option, none, some, Bool, true, false, not, ◌&&◌, ◌||◌,
  if◌then◌else◌, all, any, codes, text_eq, text_le, sort_by, has, lookup, insert, get_or, keys,
  sorted_keys, add_member, contains, has_prefix, has_suffix, Result, ok, err, ◌>>=◌, ◌>>◌, guard,
}
use nix_ci_worker.Pool.Message.{native_name}
use nix_ci_worker.Plan.Types.{Plan, Derivation, DerivationInput, derivation}
use nix_ci_worker.Snapshot.Paths.{valid_store_path}

abbrev pub is_empty : Text → Bool
is_empty s = text_eq s []

unfoldable pub static : Plan → Bool
unfolding text_eq
static p = all (λ e. not e.1.dynamic && all (λ o. not (is_empty o.1)) e.1.outputs) p.derivations

unfoldable pub add_all : List Text → List Text → List Text
unfolding add_member
add_all [] s = s
add_all (x ∷ xs) s = add_all xs (add_member x s)

-- The loop over a derivation's outputs: a path that is known is required.
unfoldable pub add_outputs : Dict Text → List Text → List Text
unfolding add_member text_eq
add_outputs [] s = s
add_outputs ((name, path) ∷ os) s = add_outputs os (if is_empty path then s else add_member path s)

-- The loop over the targets.
unfoldable pub check_targets : Dict Derivation → Dict Text → Result (Unit {0})
unfolding native_name lookup
check_targets ds [] = ok tt
check_targets ds ((name, drv) ∷ ts) = do
  guard (native_name name) "invalid native targets"
  guard (has ds drv) "missing target derivation"
  check_targets ds ts

-- The loop over the derivations: `Required` and `Outputs`.
unfoldable pub add_required :
    Dict Derivation → List Text → Dict (Dict Text) → Result (List Text × Dict (Dict Text))
unfolding has_prefix has_suffix add_member add_all add_outputs
add_required [] required outputs = ok (required, outputs)
add_required ((drv, value) ∷ ds) required outputs = do
  guard (has_prefix drv (codes "/nix/store/") && has_suffix drv (codes ".drv")) "invalid derivation"
  add_required ds (add_outputs value.outputs (add_all value.input_srcs (add_member drv required)))
      (insert drv value.outputs outputs)

unfoldable pub new_plan : Dict Text → Dict Derivation → List Text → Result Plan
unfolding check_targets add_all add_required
new_plan targets derivations requisites = do
  guard (not (elim targets [ [] ↦ true | t ∷ ts ↦ false ])) "invalid native targets"
  check_targets derivations targets
  made ← add_required derivations (add_all requisites []) []
  ok (record { targets = targets; derivations = derivations; required = made.0; outputs = made.1 })

unfoldable pub complete : Plan → (Text → Bool) → Bool
unfolding text_eq
complete p covers =
    all (λ e. not e.1.dynamic) p.derivations
    && all (λ e. all (λ o. not (is_empty o.1)) e.1) p.outputs
    && all covers p.required

-- strings.Join(names, ",")
unfoldable pub join_names : List Text → Text
join_names [] = []
join_names (n ∷ []) = n
join_names (n ∷ m ∷ ns) = n ++ codes "," ++ join_names (m ∷ ns)

-- The path is unknown, or neither the cache nor the local store has it.
abbrev pub lacks : (Text → Bool) → (Text → Bool) → Text → Bool
lacks covers local path = is_empty path || not (covers path) && not (local path)

-- The names of a derivation's outputs that are lacking, in order.
unfoldable pub lacking : Dict Text → (Text → Bool) → (Text → Bool) → List Text → List Text
unfolding lookup text_eq
lacking outputs covers local [] = []
lacking outputs covers local (n ∷ ns) =
    let rest = lacking outputs covers local ns in
    if lacks covers local (get_or outputs n []) then n ∷ rest else rest

-- The loop over the derivations, in order.
unfoldable pub missing_from :
    Dict (Dict Text) → (Text → Bool) → (Text → Bool) → List Text → List Text
unfolding lookup lacking sorted_keys join_names
missing_from outputs covers local [] = []
missing_from outputs covers local (drv ∷ drvs) =
    let rest = missing_from outputs covers local drvs in
    let own = get_or outputs drv [] in
    elim (lacking own covers local (sorted_keys own)) [
      | [] ↦ rest
      | n ∷ ns ↦ (drv ++ codes "^" ++ join_names (n ∷ ns)) ∷ rest
    ]

unfoldable pub missing : Plan → (Text → Bool) → (Text → Bool) → List Text
unfolding missing_from sorted_keys
missing p covers local = missing_from p.outputs covers local (sorted_keys p.outputs)

-- The loop over an input's outputs: one that is not listed reads as "".
unfoldable pub add_named : Dict Text → List Text → List Text → List Text
unfolding add_member lookup
add_named outputs [] paths = paths
add_named outputs (name ∷ names) paths =
    add_named outputs names (add_member (get_or outputs name []) paths)

-- An input has no dynamic outputs.
abbrev pub is_plain : DerivationInput → Bool
is_plain input = elim input.dynamic_outputs [ [] ↦ true | d ∷ ds ↦ false ]

-- The loop over the inputs.
unfoldable pub add_inputs : Plan → Dict DerivationInput → List Text → Result (List Text)
unfolding add_named lookup
add_inputs p [] paths = ok paths
add_inputs p ((dependency, input) ∷ is) paths = elim input.outputs [
  | none ↦ err "invalid static build dependency"
  | some names ↦
      if not (is_plain input)
      then err "invalid static build dependency"
      else elim (lookup dependency p.outputs) [
        | none ↦ err "missing build dependency"
        | some outputs ↦ add_inputs p is (add_named outputs names paths)
      ]
]

unfoldable pub build_inputs : Plan → Text → Result (List Text)
unfolding lookup valid_store_path add_all add_inputs sort_by text_le
build_inputs p drv = do
  let d = derivation p drv
  guard (not (not (has p.derivations drv) || not (valid_store_path drv) || d.dynamic))
      "invalid static build derivation"
  paths ← add_inputs p d.input_drvs (add_all d.input_srcs (drv ∷ []))
  guard (all valid_store_path paths) "invalid or unresolved build input"
  ok (sort_by text_le paths)
