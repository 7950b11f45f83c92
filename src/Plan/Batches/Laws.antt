-- ===== src/Plan/Batches/Laws.antt =====
-- What `Plan.Batches` of worker/planner.go guarantees.
use nix_ci_worker.Base.{
  suc, ◌≡◌, ◌∙◌, refl, sym, ap, subst, Text, Dict, List, [], ◌∷◌, true, not, contains, text_eq,
  count, count-contains, count_full, IsUnique, All, All_contains, arith, length, length-map, keys,
  lookup, lookup-none, ok, ok_parts, guarded, Bool-cases, inl, inr,
}
use nix_ci_worker.Plan.Types.{Plan, Derivation}
use nix_ci_worker.Plan.Batches.{
  Degrees, no_degrees, selection, add_derivations, visit_ready, ordered_builds,
}
use nix_ci_worker.Plan.Batches.Graph.{inputs_in, Built, add_derivations-Built}
use nix_ci_worker.Plan.Batches.Order.{
  IsTopological, picked, IsDag, Progress, Visited, visit_ready_lem,
}

-- What Go's maps give: no key twice.
pub record IsPlan (p : Plan) : Type 0 where
  pub distinct : IsUnique (keys p.derivations)
  pub simple : All (λ e. IsUnique (keys e.1.input_drvs)) p.derivations

abbrev pub names : Plan → List Text
names p = keys p.derivations

abbrev pub inputs : Plan → Text → List Text
inputs p = inputs_in p.derivations

pub inputs_outside :
    (p : Plan) (x i : Text) → contains (inputs p x) i ≡ true → contains (names p) x ≡ true
unfolding contains
inputs_outside p x i h = elim (Bool-cases (contains (names p) x)) [
  | inl k ↦ k
  | inr k ↦ ground (arith, lookup-none x p.derivations k)
]

inputs_simple :
    (ds : Dict Derivation) (x : Text)
    → All (λ e. IsUnique (keys e.1.input_drvs)) ds
    → IsUnique (inputs_in ds x)
unfolding lookup
inputs_simple [] x a = tt
inputs_simple ((drv, d) ∷ ds) x a = elim (Bool-cases (text_eq drv x)) [
  | inl e ↦ subst IsUnique (rw (e, inputs_in, lookup) refl) a.0
  | inr e ↦ subst IsUnique (rw (e, inputs_in, lookup) refl) (inputs_simple ds x a.1)
]

count_all : (xs : List Text) → count (λ i. not (contains [] i)) xs ≡ length xs
unfolding count contains
count_all [] = refl
count_all (x ∷ xs) = omega (arith, count_all xs)

-- Built from the derivations, the graph goes through the loop with every derivation that the loop can reach.
module _ (p : Plan) (plan : IsPlan p) (g : Degrees) (b : Built p p.derivations no_degrees g) where
  built-IsDag : IsDag (names p) (inputs p) g.consumers
  unfolding count
  built-IsDag = record {
    distinct = plan.distinct;
    simple = λ x. inputs_simple p.derivations x plan.simple;
    outside = inputs_outside p;
    consumed = λ x c. ground (arith, b.consumed x c);
  }

  start-Progress : Progress (names p) (inputs p) [] g.ready g.counts
  unfolding contains count
  start-Progress = record {
    topological = tt;
    distinct = tt;
    listed = λ x k. cc;
    single = λ x. ground (arith, b.fresh x, b.counted x);
    counted = λ x. ground (arith, b.counted x, count_all (inputs p x), lookup-none x p.derivations);
  }

  pub visits :
      (selected : Dict Text)
      → (all : List Text) × (visit_ready
            (suc (length p.derivations))
            selected
            g.consumers
            g.counts
            g.ready
            []
            0
          ≡ (picked selected all, length all))
        × Visited (names p) (inputs p) all
  visits selected =
      visit_ready_lem (names p) (inputs p) g.consumers built-IsDag selected
        (suc (length p.derivations)) [] g.ready g.counts
        (omega (arith, length-map (λ (e : Text × Derivation). e.0) p.derivations)) start-Progress

-- What is visited is everything, when the numbers agree.
pub record IsOrder (p : Plan) (done : List Text) : Type 0 where
  pub distinct : IsUnique done
  pub complete : (x : Text) → contains done x ≡ contains (names p) x
  pub topological : IsTopological (inputs p) done

full-IsOrder :
    (p : Plan) (done : List Text)
    → IsPlan p
    → Visited (names p) (inputs p) done
    → length done ≡ length p.derivations
    → IsOrder p done
full-IsOrder p done plan v e =
    let size = length-map (λ (e : Text × Derivation). e.0) p.derivations in
    let every =
      count_full (contains done) (names p)
        (omega (arith, count-contains done (names p) v.distinct plan.distinct v.listed)) in
    record {
      distinct = v.distinct;
      complete = λ x.
          ground (arith, v.listed x, All_contains (λ y. contains done y ≡ true) (names p) x every);
      topological = v.topological;
    }

pub ordered_builds_lem :
    (p : Plan) (missing ordered : List Text)
    → IsPlan p
    → ordered_builds p missing ≡ ok ordered
    → (done : List Text) × IsOrder p done × (ordered ≡ picked (selection missing []) done)
unfolding ordered_builds
ordered_builds_lem p missing ordered plan h =
    let selected = selection missing [] in
    let (g, built, rest) = ok_parts (add_derivations p p.derivations no_degrees) _ h in
    let (done, same, v) =
      visits p plan g
        (add_derivations-Built p p.derivations no_degrees g plan.distinct plan.simple built)
        selected in
    let (sizes, out) = guarded _ "cyclic derivation graph" _ rest in
    (done, full-IsOrder p done plan v (ground (arith, same, sizes)), sym out ∙ ap (λ r. r.0) same)
