-- ===== src/Scheduler/Dependencies/Exact.antt =====
-- `poolDependencies` finds exactly the scheduled tasks that are reached through unscheduled ones.
use nix_ci_worker.Base.{
  ℕ, zero, suc, ◌+◌, ◌≤◌, ◌<◌, ◌≡◌, ◌⊎◌, inl, inr, refl, sym, ap, subst, Text, List, [], ◌∷◌,
  Option, none, some, Bool, true, false, false≢true, not, contains, contains-append, contains_self,
  contains_later, text_eq, text_eq_iff, text_eq_self, keys, lookup-none, length, length-map, count,
  count_mono, count-le-length, arith, Bool-cases,
}
use nix_ci_worker.Plan.Types.{Plan, Derivation, no_derivation}
use nix_ci_worker.Scheduler.Dependencies.{
  Search, inputs_of, visit_input, visit_inputs, visit, pool_dependencies,
}

-- A path from a derivation to one that it needs, through unscheduled ones.
pub data Needs (graph : Plan) (scheduled : Text → Bool) (drv : Text) : Text → Type 0 where
  direct : (d : Text) → contains (inputs_of graph drv) d ≡ true → Needs graph scheduled drv d
  through :
      (m d : Text)
      → Needs graph scheduled drv m
      → scheduled m ≡ false
      → contains (inputs_of graph m) d ≡ true
      → Needs graph scheduled drv d

module _ (graph : Plan) (scheduled : Text → Bool) where
  -- What a call does to the search from `st` to `t`.
  record Grows (st t : Search) : Type 0 where
    keeps : (x : Text) → contains st.seen x ≡ true → contains t.seen x ≡ true
    expands :
        (x y : Text)
        → contains t.seen x ≡ true
        → contains st.seen x ≡ false
        → scheduled x ≡ false
        → contains (inputs_of graph x) y ≡ true
        → contains t.seen y ≡ true

  Grows-refl : (st : Search) → Grows st st
  Grows-refl st = record { keeps = λ x h. h; expands = λ x y h k. cc }

  Grows-trans : (a b c : Search) → Grows a b → Grows b c → Grows a c
  Grows-trans a b c g h = record {
    keeps = λ x k. h.keeps x (g.keeps x k);
    expands = λ x y k l u p. elim (Bool-cases (contains b.seen x)) [
      | inl e ↦ h.keeps y (g.expands x y e l u p)
      | inr e ↦ h.expands x y k e u p
    ];
  }

  -- The derivations that are not marked yet.
  abbrev unseen : Search → ℕ
  unseen st = count (λ k. not (contains st.seen k)) (keys graph.derivations)

  unseen-keeps : (a b : Search) → Grows a b → unseen b ≤ unseen a
  unseen-keeps a b g =
      count_mono (λ k. not (contains b.seen k)) (λ k. not (contains a.seen k))
        (keys graph.derivations) (λ k h. ground (arith, g.keeps k))

  -- Marking a derivation leaves fewer.
  count_marked :
      (ks : List Text) (st : Search) (d : Text)
      → contains ks d ≡ true
      → contains st.seen d ≡ false
      → count (λ k. not (contains (d ∷ st.seen) k)) ks + 1
        ≤ count (λ k. not (contains st.seen k)) ks
  unfolding count contains
  count_marked [] st d h k = cc
  count_marked (x ∷ xs) st d h k =
      let rest =
        count_mono (λ k. not (contains (d ∷ st.seen) k)) (λ k. not (contains st.seen k)) xs
          (λ k e. ground (arith)) in
      ground (arith, text_eq_iff x d, text_eq_iff d x, rest, count_marked xs st d)

  -- What is not a derivation of the graph has no inputs.
  no_inputs : (d : Text) → contains (keys graph.derivations) d ≡ false → inputs_of graph d ≡ []
  no_inputs d h = ap inputs_at (lookup-none d graph.derivations h)
    where
      inputs_at : Option Derivation → List Text
      inputs_at o =
          let d : Derivation = elim o [ none ↦ no_derivation | some v ↦ v ] in keys d.input_drvs

  -- A search deep enough for what it may still come to.
  abbrev Enough : ℕ → Text → Search → Type 0
  Enough fuel current st = (unseen st < fuel) ⊎ (inputs_of graph current ≡ [])

  abbrev Marks : List Text → Search → Type 0
  Marks ds st = (d : Text) → contains ds d ≡ true → contains st.seen d ≡ true

  module _ (go : Text → Search → Search) (fuel : ℕ)
      (ih : (c : Text) (st : Search)
        → Enough fuel c st
        → Grows st (go c st) × Marks (inputs_of graph c) (go c st)) where
    marked-Enough :
        (dep : Text) (st : Search)
        → contains st.seen dep ≡ false
        → unseen st ≤ fuel
        → Enough fuel dep (record st { seen = dep ∷ st.seen })
    marked-Enough dep st new room = elim (Bool-cases (contains (keys graph.derivations) dep)) [
      | inl k ↦ inl (omega (arith, count_marked (keys graph.derivations) st dep k new))
      | inr k ↦ inr (no_inputs dep k)
    ]

    plain-Grows :
        (dep : Text) (st : Search)
        → contains st.seen dep ≡ false
        → unseen st ≤ fuel
        → Grows st (go dep (record st { seen = dep ∷ st.seen }))
    unfolding contains
    plain-Grows dep st new room =
        let (g, m) = ih dep (record st { seen = dep ∷ st.seen }) (marked-Enough dep st new room) in
        record {
          keeps = λ x h. g.keeps x (ground arith);
          expands = λ x y h k u p. elim (Bool-cases (text_eq dep x)) [
            | inl e ↦ m y (rw ((text_eq_iff dep x).0 e) p)
            | inr e ↦ g.expands x y h (ground arith) u p
          ];
        }

    input-Grows :
        (dep : Text) (st : Search)
        → unseen st ≤ fuel
        → Grows st (visit_input graph scheduled go dep st)
          × (contains (visit_input graph scheduled go dep st).seen dep ≡ true)
    unfolding visit_input contains
    input-Grows dep st room = elim (Bool-cases (contains st.seen dep)) [
      | inl old ↦ rw (old, visit_input) (Grows-refl st, old)
      | inr new ↦ elim (Bool-cases (scheduled dep)) [
        | inl task ↦
            rw (new, task, visit_input)
              (
                record {
                  keeps = λ x h. ground arith;
                  expands = λ x y h k u p. ground (arith, text_eq_iff dep x);
                },
                ground (arith, text_eq_self dep),
              )
        | inr plain ↦
            let g = plain-Grows dep st new room in
            rw (new, plain, visit_input)
              (
                g,
                (ih dep _ (marked-Enough dep st new room)).0.keeps dep (contains_self dep st.seen),
              )
      ]
    ]

    loop-Grows :
        (ds : List Text) (st : Search)
        → unseen st ≤ fuel
        → Grows st (visit_inputs graph scheduled go ds st)
          × Marks ds (visit_inputs graph scheduled go ds st)
    unfolding visit_inputs contains
    loop-Grows [] st room = (Grows-refl st, λ d h. elim (false≢true h) [ ])
    loop-Grows (dep ∷ ds) st room =
        let (g, here) = input-Grows dep st room in
        let t = visit_input graph scheduled go dep st in
        let (h, m) = loop-Grows ds t (omega (arith, unseen-keeps st t g)) in
        (
          Grows-trans st t _ g h,
          λ d k. elim (Bool-cases (text_eq dep d)) [
            | inl e ↦ h.keeps d (rw (← (text_eq_iff dep d).0 e) here)
            | inr e ↦ m d (ground arith)
          ],
        )

  no_member : (ds : List Text) (d : Text) → ds ≡ [] → contains ds d ≡ true → ⊥
  unfolding contains
  no_member [] d e h = false≢true h
  no_member (x ∷ ds) d e h = cc

  -- A call marks all inputs, and all inputs of the unscheduled derivations that it marks.
  visit-Grows :
      (fuel : ℕ) (c : Text) (st : Search)
      → Enough fuel c st
      → Grows st (visit graph scheduled fuel c st)
        × Marks (inputs_of graph c) (visit graph scheduled fuel c st)
  unfolding visit visit_inputs contains
  visit-Grows zero c st (inl room) = absurd (omega arith)
  visit-Grows zero c st (inr none_left) =
      (Grows-refl st, λ d h. absurd (no_member (inputs_of graph c) d none_left h))
  visit-Grows (suc fuel) c st (inl room) =
      loop-Grows (visit graph scheduled fuel) fuel (visit-Grows fuel) (inputs_of graph c) st
        (omega arith)
  visit-Grows (suc fuel) c st (inr none_left) =
      subst (λ t. Grows st t × Marks (inputs_of graph c) t)
        (sym (ap (λ ds. visit_inputs graph scheduled (visit graph scheduled fuel) ds st) none_left))
        (Grows-refl st, λ d h. absurd (no_member (inputs_of graph c) d none_left h))

  module _ (drv : Text) where
    -- The result holds scheduled tasks that are needed, and all of them that are marked.
    record Right (st : Search) : Type 0 where
      sound :
          (x : Text)
          → contains st.result x ≡ true
          → (scheduled x ≡ true) × Needs graph scheduled drv x
      full :
          (x : Text) → contains st.seen x ≡ true → scheduled x ≡ true → contains st.result x ≡ true

    abbrev AllNeeded : List Text → Type 0
    AllNeeded ds = (d : Text) → contains ds d ≡ true → Needs graph scheduled drv d

    module _ (go : Text → Search → Search)
        (ih : (c : Text) (st : Search)
          → AllNeeded (inputs_of graph c)
          → Right st
          → Right (go c st)) where
      input-Right :
          (dep : Text) (st : Search)
          → Needs graph scheduled drv dep
          → Right st
          → Right (visit_input graph scheduled go dep st)
      unfolding visit_input contains
      input-Right dep st n h = elim (Bool-cases (contains st.seen dep)) [
        | inl old ↦ rw (old, visit_input) h
        | inr new ↦ elim (Bool-cases (scheduled dep)) [
          | inl task ↦
              rw (new, task, visit_input)
                (record {
                  sound = λ x k. elim (Bool-cases (contains st.result x)) [
                    | inl e ↦ h.sound x e
                    | inr e ↦
                        let same : dep ≡ x =
                          ground
                            (arith, contains-append st.result (dep ∷ []) x, text_eq_iff dep x) in
                        subst (λ y. (scheduled y ≡ true) × Needs graph scheduled drv y) same
                          (task, n)
                  ];
                  full = λ x k l. ground (arith, contains-append st.result (dep ∷ []) x, h.full x);
                })
          | inr plain ↦
              rw (new, plain, visit_input)
                (ih dep (record st { seen = dep ∷ st.seen }) (λ d k. through dep d n plain k)
                  (record {
                    sound = h.sound;
                    full = λ x k l. ground (arith, h.full x, text_eq_iff dep x);
                  }))
        ]
      ]

      loop-Right :
          (ds : List Text) (st : Search)
          → AllNeeded ds
          → Right st
          → Right (visit_inputs graph scheduled go ds st)
      unfolding visit_inputs
      loop-Right [] st n h = h
      loop-Right (dep ∷ ds) st n h =
          loop-Right ds (visit_input graph scheduled go dep st)
            (λ d k. n d (contains_later dep ds d k))
            (input-Right dep st (n dep (contains_self dep ds)) h)

    visit-Right :
        (fuel : ℕ) (c : Text) (st : Search)
        → AllNeeded (inputs_of graph c)
        → Right st
        → Right (visit graph scheduled fuel c st)
    unfolding visit
    visit-Right zero c st n h = h
    visit-Right (suc fuel) c st n h =
        loop-Right (visit graph scheduled fuel) (visit-Right fuel) (inputs_of graph c) st n h

abbrev nothing_seen : Search
nothing_seen = record { seen = []; result = [] }

-- What a derivation needs is marked when the search from it is over.
Marks-Needs :
    (graph : Plan) (scheduled : Text → Bool) (drv : Text) (t : Search)
    → Grows graph scheduled nothing_seen t
    → Marks graph scheduled (inputs_of graph drv) t
    → {d : Text} → Needs graph scheduled drv d
    → contains t.seen d ≡ true
unfolding contains
Marks-Needs graph scheduled drv t g m (direct d k) = m d k
Marks-Needs graph scheduled drv t g m (through x d n plain k) =
    g.expands x d (Marks-Needs graph scheduled drv t g m n) refl plain k

-- `poolDependencies` lists exactly the scheduled tasks that the derivation needs, directly or through
-- derivations that are not scheduled.
pub pool_dependencies_exact :
    (graph : Plan) (scheduled : Text → Bool) (drv d : Text)
    → (contains (pool_dependencies graph scheduled drv) d ≡ true
        → (scheduled d ≡ true) × Needs graph scheduled drv d)
      × (scheduled d ≡ true
          → Needs graph scheduled drv d
          → contains (pool_dependencies graph scheduled drv) d ≡ true)
unfolding pool_dependencies contains
pool_dependencies_exact graph scheduled drv d =
    let fuel = suc (length graph.derivations) in
    let right =
      visit-Right graph scheduled drv fuel drv nothing_seen (λ x k. direct x k)
        (record { sound = λ x k. cc; full = λ x k l. cc }) in
    let (grows, marks) = visit-Grows graph scheduled fuel drv nothing_seen (
      inl (
        omega (
          arith,
          count-le-length (λ k. not (contains [] k)) (keys graph.derivations),
          length-map (λ (e : Text × Derivation). e.0) graph.derivations,
        ))) in
    (right.sound d, λ task n. right.full d (Marks-Needs graph scheduled drv _ grows marks n) task)
