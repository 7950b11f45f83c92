-- ===== src/Plan/Batches/Complete.antt =====
-- A graph with all its inputs and no cycle is ordered.
use nix_ci_worker.Base.{
  ℕ, zero, suc, ◌<◌, ◌≡◌, ==_iff, ◌∙◌, refl, sym, ap, Text, Dict, List, [], ◌∷◌, true, false,
  false≢true, not, contains, text_eq, text_eq_iff, count-contains, count_every, count_ext_members,
  count_none, All_contains, IsUnique, All, arith, length, length-map, keys, has, lookup,
  has-contains, ok, ok_parts, Bool-cases, inl, inr, if◌then◌else◌,
}
use nix_ci_worker.Plan.Types.{Plan, Derivation}
use nix_ci_worker.Plan.Batches.{
  Degrees, no_degrees, selection, add_edges, add_derivations, ordered_builds,
}
use nix_ci_worker.Plan.Batches.Graph.{inputs_in, add_derivations-Built}
use nix_ci_worker.Plan.Batches.Order.{Visited, IsTopological, picked}
use nix_ci_worker.Plan.Batches.Laws.{IsPlan, names, inputs, visits}

add_edges_total :
    (p : Plan) (drv : Text) (deps : List Text) (consumers : Text → List Text)
    → All (λ i. has p.derivations i ≡ true) deps
    → (result : Text → List Text) × (add_edges p drv deps consumers ≡ ok result)
unfolding add_edges
add_edges_total p drv [] consumers a = (consumers, refl)
add_edges_total p drv (dep ∷ deps) consumers a =
    rw (a.0, add_edges) (add_edges_total p drv deps _ a.1)

add_derivations_total :
    (p : Plan) (ds : Dict Derivation) (g : Degrees)
    → All (λ e. All (λ i. has p.derivations i ≡ true) (keys e.1.input_drvs)) ds
    → (g' : Degrees) × (add_derivations p ds g ≡ ok g')
unfolding add_derivations
add_derivations_total p [] g a = (g, refl)
add_derivations_total p ((drv, d) ∷ ds) g a =
    let (consumers, e) = add_edges_total p drv (keys d.input_drvs) g.consumers a.0 in
    rw (e, add_derivations) (add_derivations_total p ds _ a.1)

-- The other way round: a loop that succeeds has found every input.
add_edges_known :
    (p : Plan) (drv : Text) (deps : List Text) (consumers result : Text → List Text)
    → add_edges p drv deps consumers ≡ ok result
    → All (λ i. has p.derivations i ≡ true) deps
unfolding add_edges
add_edges_known p drv [] consumers result h = tt
add_edges_known p drv (dep ∷ deps) consumers result h = elim (Bool-cases (has p.derivations dep)) [
  | inl e ↦ (e, add_edges_known p drv deps _ result (rw e at h))
  | inr e ↦ ground arith
]

add_derivations_known :
    (p : Plan) (ds : Dict Derivation) (g g' : Degrees)
    → add_derivations p ds g ≡ ok g'
    → All (λ e. All (λ i. has p.derivations i ≡ true) (keys e.1.input_drvs)) ds
unfolding add_derivations
add_derivations_known p [] g g' h = tt
add_derivations_known p ((drv, d) ∷ ds) g g' h =
    let (consumers, edges, rest) = ok_parts (add_edges p drv (keys d.input_drvs) g.consumers) _ h in
    (
      add_edges_known p drv (keys d.input_drvs) g.consumers consumers edges,
      add_derivations_known p ds _ g' rest,
    )

-- A rank that falls from every derivation to its inputs: there is no cycle.
pub record IsAcyclic (p : Plan) (rank : Text → ℕ) : Type 0 where
  pub known : All (λ e. All (λ i. has p.derivations i ≡ true) (keys e.1.input_drvs)) p.derivations
  pub falls : (x i : Text) → contains (inputs p x) i ≡ true → rank i < rank x

known_member :
    (p : Plan) (ds : Dict Derivation) (x i : Text)
    → All (λ e. All (λ j. has p.derivations j ≡ true) (keys e.1.input_drvs)) ds
    → contains (inputs_in ds x) i ≡ true
    → has p.derivations i ≡ true
unfolding lookup contains
known_member p [] x i a h = elim (false≢true h) [ ]
known_member p ((drv, d) ∷ ds) x i a h = elim (Bool-cases (text_eq drv x)) [
  | inl e ↦
      All_contains (λ j. has p.derivations j ≡ true) (keys d.input_drvs) i a.0
        (rw (e, inputs_in, lookup) at h)
  | inr e ↦ known_member p ds x i a.1 (rw (e, inputs_in, lookup) at h)
]

-- By induction on a bound of the rank.
module _ (p : Plan) (rank : Text → ℕ) (acyclic : IsAcyclic p rank) (done : List Text)
    (v : Visited (names p) (inputs p) done) where
  reached :
      (bound : ℕ) (x : Text) → rank x < bound → contains (names p) x ≡ true → contains done x ≡ true
  reached zero x low k = absurd (omega arith)
  reached (suc bound) x low k = elim (Bool-cases (contains done x)) [
    | inl e ↦ e
    | inr e ↦ absurd (
        ground (
          arith,
          v.stuck x k e,
          count_none (inputs p x),
          count_ext_members (λ i. not (contains done i)) (λ _. false) (inputs p x)
              (λ i j. ap not (
                reached bound i (omega (arith, acyclic.falls x i j)) (
                  sym (has-contains p.derivations i)
                  ∙ known_member p p.derivations x i acyclic.known j))),
        ))
  ]

  all_visited : IsPlan p → length done ≡ length p.derivations
  all_visited plan = omega (
    arith,
    length-map (λ (e : Text × Derivation). e.0) p.derivations,
    count_every (names p),
    count_ext_members (contains done) (λ _. true) (names p)
        (λ x k. reached (suc (rank x)) x (omega arith) k),
    count-contains done (names p) v.distinct plan.distinct v.listed,
  )

pub ordered_builds_total :
    (p : Plan) (missing : List Text) (rank : Text → ℕ)
    → IsPlan p
    → IsAcyclic p rank
    → (ordered : List Text) × (ordered_builds p missing ≡ ok ordered)
unfolding ordered_builds
ordered_builds_total p missing rank plan acyclic =
    let selected = selection missing [] in
    let (g, built) = add_derivations_total p p.derivations no_degrees acyclic.known in
    let (done, same, v) =
      visits p plan g
        (add_derivations-Built p p.derivations no_degrees g plan.distinct plan.simple built)
        selected in
    (
      picked selected done,
      rw
          (
            built,
            same,
            all_visited p rank acyclic done v plan,
            (==_iff (length p.derivations) (length p.derivations)).1 refl,
          )
          refl,
    )

pub ordered_builds_known :
    (p : Plan) (missing ordered : List Text)
    → ordered_builds p missing ≡ ok ordered
    → All (λ e. All (λ i. has p.derivations i ≡ true) (keys e.1.input_drvs)) p.derivations
unfolding ordered_builds
ordered_builds_known p missing ordered h =
    let (g, built, rest) = ok_parts (add_derivations p p.derivations no_degrees) _ h in
    add_derivations_known p p.derivations no_degrees g built

topological_closed :
    (inputs : Text → List Text) (done : List Text) (x i : Text)
    → IsTopological inputs done
    → contains done x ≡ true
    → contains (inputs x) i ≡ true
    → contains done i ≡ true
unfolding contains
topological_closed inputs [] x i t k h = elim (false≢true k) [ ]
topological_closed inputs (d ∷ done) x i t k h = elim (Bool-cases (text_eq d x)) [
  | inl e ↦ ground (arith, t.0 i (rw ((text_eq_iff d x).0 e) h))
  | inr e ↦ ground (arith, topological_closed inputs done x i t.1 (ground arith) h)
]

-- The place of a derivation in the order in which the loop visits them.
abbrev pub place : List Text → Text → ℕ
place [] x = 0
place (d ∷ done) x = if text_eq d x then length done else place done x

place_below : (done : List Text) (x : Text) → contains done x ≡ true → place done x < length done
unfolding contains
place_below [] x h = elim (false≢true h) [ ]
place_below (d ∷ done) x h = ground (arith, place_below done x)

pub place_falls :
    (inputs : Text → List Text) (done : List Text) (x i : Text)
    → IsTopological inputs done
    → IsUnique done
    → contains done x ≡ true
    → contains (inputs x) i ≡ true
    → place done i < place done x
unfolding contains
place_falls inputs [] x i t u k h = elim (false≢true k) [ ]
place_falls inputs (d ∷ done) x i t u k h = elim (Bool-cases (text_eq d x)) [
  | inl e ↦
      let under = t.0 i (rw ((text_eq_iff d x).0 e) h) in
      ground (arith, place_below done i under, text_eq_iff d i)
  | inr e ↦ ground (
    arith,
    place_falls inputs done x i t.1 u.1 (ground arith) h,
    topological_closed inputs done x i t.1 (ground arith) h,
    text_eq_iff d i,
  )
]
