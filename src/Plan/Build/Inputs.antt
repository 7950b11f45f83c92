-- ===== src/Plan/Build/Inputs.antt =====
-- What `BuildInputs` of worker/planner.go copies to another store.
use nix_ci_worker.Base.{
  ◌≡◌, ◌∙◌, refl, sym, ap, arith, Text, Dict, List, [], ◌∷◌, none, some, Bool, true, false, not,
  ◌||◌, all, any, text_eq, contains, contains-add_member, contains-sort_by, all-contains,
  add_member, lookup, get_or, has, sort_by, text_le, ok, guarded, passed, ok_parts, if◌then◌else◌,
  Option-cases, Bool-cases, inl, inr,
}
use nix_ci_worker.Plan.Types.{Plan, DerivationInput, derivation}
use nix_ci_worker.Plan.Build.{is_plain, add_all, add_named, add_inputs, build_inputs}
use nix_ci_worker.Plan.Build.Required.{contains-add_all}
use nix_ci_worker.Snapshot.Paths.{valid_store_path}

-- The paths of the outputs that are named.
abbrev pub named_paths : Dict Text → List Text → Text → Bool
named_paths outputs names x = any (λ n. text_eq (get_or outputs n []) x) names

contains-add_named :
    (outputs : Dict Text) (names paths : List Text) (x : Text)
    → contains (add_named outputs names paths) x ≡ (named_paths outputs names x || contains paths x)
unfolding add_named
contains-add_named outputs [] paths x = refl
contains-add_named outputs (n ∷ ns) paths x = ground (
  arith,
  contains-add_named outputs ns (add_member (get_or outputs n []) paths) x,
  contains-add_member (get_or outputs n []) x paths,
)

-- The paths that an input's derivation has at the names of its outputs.
abbrev pub input_paths : Plan → DerivationInput → Text → Text → Bool
input_paths p input dependency x = elim input.outputs [
  | none ↦ false
  | some names ↦ named_paths (get_or p.outputs dependency []) names x
]

contains-add_inputs :
    (p : Plan) (is : Dict DerivationInput) (paths result : List Text) (x : Text)
    → add_inputs p is paths ≡ ok result
    → contains result x ≡ (any (λ e. input_paths p e.1 e.0 x) is || contains paths x)
unfolding add_inputs
contains-add_inputs p [] paths result x h = ground (arith, h)
contains-add_inputs p ((dependency, input) ∷ is) paths result x h =
    elim (Option-cases input.outputs) [
      | inl e ↦ ground (arith, e, h)
      | inr (names, e) ↦ elim (Option-cases (lookup dependency p.outputs)) [
        | inl f ↦ ground (arith, e, f, h)
        | inr (outputs, f) ↦ elim (Bool-cases (is_plain input)) [
          | inr g ↦ ground (arith, e, f, g, h)
          | inl g ↦ ground (
            arith,
            e,
            f,
            contains-add_inputs p is (add_named outputs names paths) result x
                (rw (e, f, g, add_inputs, if◌then◌else◌) at h),
            contains-add_named outputs names paths x,
          )
        ]
      ]
    ]

-- When `BuildInputs` succeeds, it lists exactly the derivation, its sources and the named outputs of its inputs, and each is a store path.
pub build_inputs_exact :
    (p : Plan) (drv : Text) (result : List Text) (x : Text)
    → build_inputs p drv ≡ ok result
    → (contains result x ≡ (
        any (λ e. input_paths p e.1 e.0 x) (derivation p drv).input_drvs
        || contains (derivation p drv).input_srcs x
        || text_eq drv x))
      × (contains result x ≡ true → valid_store_path x ≡ true)
unfolding build_inputs contains
build_inputs_exact p drv result x h =
    let d = derivation p drv in
    let (fine, rest) =
      passed (not (not (has p.derivations drv) || not (valid_store_path drv) || d.dynamic))
        "invalid static build derivation" _ h in
    let (paths, added, last) =
      ok_parts (add_inputs p d.input_drvs (add_all d.input_srcs (drv ∷ []))) _ rest in
    let (valid, same) =
      guarded (all valid_store_path paths) "invalid or unresolved build input"
        (sort_by text_le paths) last in
    let member = ap (λ l. contains l x) (sym same) ∙ contains-sort_by paths x in
    (
      ground (
        arith,
        member,
        contains-add_inputs p d.input_drvs (add_all d.input_srcs (drv ∷ [])) paths x added,
        contains-add_all d.input_srcs (drv ∷ []) x,
      ),
      λ k. all-contains valid_store_path paths x valid (sym member ∙ k),
    )
