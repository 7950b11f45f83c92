-- ===== src/Plan/Batches/Graph.antt =====
-- The counts, the consumers and the first ready derivations, read off the graph.
use nix_ci_worker.Base.{
  ◌+◌, ◌≡◌, ◌==◌, refl, subst, Text, Dict, List, [], ◌∷◌, ◌++◌, none, some, true, false, false≢true,
  ◌&&◌, if◌then◌else◌, contains, text_eq, text_eq_iff, update, count, count-append, bit, times,
  IsUnique, All, arith, has, keys, lookup, lookup-none, length, length-map, ap, ok, Bool-cases, inl,
  inr, ok_parts,
}
use nix_ci_worker.Plan.Types.{Plan, Derivation, DerivationInput}
use nix_ci_worker.Plan.Batches.{Degrees, add_edges, add_derivations}

-- The inputs that a list of derivations gives a name.
abbrev pub inputs_in : Dict Derivation → Text → List Text
inputs_in ds x = elim (lookup x ds) [ none ↦ [] | some d ↦ keys d.input_drvs ]

module _ (p : Plan) where
  add_edges_lem :
      (drv : Text) (deps : List Text) (consumers : Text → List Text) (result : Text → List Text)
      → IsUnique deps
      → add_edges p drv deps consumers ≡ ok result
      → ((x c : Text)
          → times c (result x) ≡ times c (consumers x) + bit (text_eq drv c && contains deps x))
        × ((i : Text) → contains deps i ≡ true → has p.derivations i ≡ true)
  unfolding add_edges contains count
  add_edges_lem drv [] consumers result u h = (λ x c. ground arith, λ i k. elim (false≢true k) [ ])
  add_edges_lem drv (dep ∷ deps) consumers result u h = elim (Bool-cases (has p.derivations dep)) [
    | inr missing ↦ ground arith
    | inl known ↦
        let (counted, rest) =
          add_edges_lem drv deps (update consumers dep (consumers dep ++ drv ∷ [])) result u.1
            (rw known at h) in
        (
          λ x c. ground (
            arith,
            counted x c,
            text_eq_iff dep x,
            count-append (λ y. text_eq y c) (consumers dep) (drv ∷ []),
          ),
          λ i k. elim (Bool-cases (text_eq dep i)) [
            | inl e ↦ subst (λ y. has p.derivations y ≡ true) ((text_eq_iff dep i).0 e) known
            | inr e ↦ rest i (ground arith)
          ],
        )
  ]

  pub record Built (ds : Dict Derivation) (g g' : Degrees) : Type 0 where
    pub counted :
        (x : Text)
        → g'.counts x ≡ (if contains (keys ds) x then length (inputs_in ds x) else g.counts x)
    pub consumed :
        (x c : Text)
        → times c (g'.consumers x) ≡ times c (g.consumers x) + bit (contains (inputs_in ds c) x)
    pub fresh :
        (x : Text)
        → times x g'.ready
          ≡ times x g.ready + bit (contains (keys ds) x && (length (inputs_in ds x) == 0))
    pub known : (c i : Text) → contains (inputs_in ds c) i ≡ true → has p.derivations i ≡ true

  -- One derivation before others.
  Built-cons :
      (drv : Text) (d : Derivation) (ds : Dict Derivation) (g h g' : Degrees)
      → contains (keys ds) drv ≡ false
      → h.counts ≡ update g.counts drv (length d.input_drvs)
      → ((x c : Text)
          → times c (h.consumers x)
            ≡ times c (g.consumers x) + bit (text_eq drv c && contains (keys d.input_drvs) x))
      → h.ready ≡ (if length d.input_drvs == 0 then g.ready ++ drv ∷ [] else g.ready)
      → ((i : Text) → contains (keys d.input_drvs) i ≡ true → has p.derivations i ≡ true)
      → Built ds h g'
      → Built ((drv, d) ∷ ds) g g'
  unfolding lookup contains count
  Built-cons drv d ds g h g' new counts consumers ready inputs b =
      let nothing = lookup-none drv ds new in
      let size = length-map (λ (e : Text × DerivationInput). e.0) d.input_drvs in
      record {
        counted = λ x. ground (arith, b.counted x, text_eq_iff drv x, size, ap (λ f. f x) counts);
        consumed = λ x c. ground (arith, b.consumed x c, text_eq_iff drv c, consumers x c, nothing);
        fresh = λ x. ground (
          arith,
          b.fresh x,
          text_eq_iff drv x,
          size,
          ready,
          count-append (λ y. text_eq y x) g.ready (drv ∷ []),
        );
        known = λ c i k. ground (arith, b.known c i, text_eq_iff drv c, inputs i);
      }

  pub add_derivations-Built :
      (ds : Dict Derivation) (g g' : Degrees)
      → IsUnique (keys ds)
      → All (λ e. IsUnique (keys e.1.input_drvs)) ds
      → add_derivations p ds g ≡ ok g'
      → Built ds g g'
  unfolding add_derivations lookup contains
  add_derivations-Built [] g g' u v h = record {
    counted = λ x. ground arith;
    consumed = λ x c. ground arith;
    fresh = λ x. ground arith;
    known = λ c i k. elim (false≢true k) [ ];
  }
  add_derivations-Built ((drv, d) ∷ ds) g g' u v h =
      let (consumers, edges, rest) =
        ok_parts (add_edges p drv (keys d.input_drvs) g.consumers)
          (λ consumers. add_derivations p ds (after g drv d consumers)) h in
      let (listed, inputs) =
        add_edges_lem drv (keys d.input_drvs) g.consumers consumers v.0 edges in
      Built-cons drv d ds g (after g drv d consumers) g' u.0 refl listed refl inputs
        (add_derivations-Built ds (after g drv d consumers) g' u.1 v.1 rest)
    where
      after : Degrees → Text → Derivation → (Text → List Text) → Degrees
      after g drv d consumers = record {
        counts = update g.counts drv (length d.input_drvs);
        consumers = consumers;
        ready = if length d.input_drvs == 0 then g.ready ++ drv ∷ [] else g.ready;
      }
