-- ===== src/Plan/Batches/Order.antt =====
-- The loop of `Plan.Batches` visits a derivation after its inputs, and as many as it can.
use nix_ci_worker.Base.{
  ℕ, zero, suc, ◌+◌, ◌-◌, ◌<◌, ◌≡◌, ◌==◌, ◌∙◌, sym, ap, Text, Dict, List, [], ◌∷◌, ◌++◌, true,
  false, not, ◌&&◌, contains, text_eq, text_eq_iff, text_eq_self, text_le, count, count-contains,
  count-le-length, count_marked, contains-times, bit, times, IsUnique, IsUnique-times,
  All-count_zero, All_contains, arith, length, List-cases, inl, inr, sort_by, sort_by-count,
}
use nix_ci_worker.Plan.Batches.{release, pick, visit_ready}
use nix_ci_worker.Plan.Batches.Release.{release-counts, release-ready}

-- The builds of the visited derivations, the last visited first in the list.
abbrev pub picked : Dict Text → List Text → List Text
picked selected [] = []
picked selected (d ∷ done) = picked selected done ++ pick selected d

-- Every derivation stands before its inputs, the last visited first.
abbrev pub IsTopological : (Text → List Text) → List Text → Type 0
IsTopological inputs [] = Unit
IsTopological inputs (d ∷ done) =
    ((i : Text) → contains (inputs d) i ≡ true → contains done i ≡ true) × IsTopological inputs done

module _ (names : List Text) (inputs : Text → List Text) where
  -- The graph, as the loop finds it.
  pub record IsDag (consumers : Text → List Text) : Type 0 where
    pub distinct : IsUnique names
    pub simple : (x : Text) → IsUnique (inputs x)
    pub outside : (x i : Text) → contains (inputs x) i ≡ true → contains names x ≡ true
    pub consumed : (x c : Text) → times c (consumers x) ≡ bit (contains (inputs c) x)

  -- `done` has the visited derivations.
  pub record Progress (done ready : List Text) (counts : Text → ℕ) : Type 0 where
    pub topological : IsTopological inputs done
    pub distinct : IsUnique done
    pub listed : (x : Text) → contains done x ≡ true → contains names x ≡ true
    pub single :
        (x : Text)
        → times x ready + bit (contains done x) ≡ bit (contains names x && (counts x == 0))
    pub counted : (x : Text) → counts x ≡ count (λ i. not (contains done i)) (inputs x)

  -- What is left when nothing is ready: each other derivation waits for one that is not visited.
  pub record Visited (done : List Text) : Type 0 where
    pub topological : IsTopological inputs done
    pub distinct : IsUnique done
    pub listed : (x : Text) → contains done x ≡ true → contains names x ≡ true
    pub stuck :
        (x : Text)
        → contains names x ≡ true
        → contains done x ≡ false
        → 0 < count (λ i. not (contains done i)) (inputs x)

  module _ (consumers : Text → List Text) (g : IsDag consumers) where
    consumers-IsUnique : (d : Text) → IsUnique (consumers d)
    consumers-IsUnique d = IsUnique-times (consumers d) (λ c. ground (arith, g.consumed d c))

    consumers-contains : (d c : Text) → contains (consumers d) c ≡ contains (inputs c) d
    consumers-contains d c = ground (arith, g.consumed d c, contains-times (consumers d) c)

    -- Nothing is ready.
    ended :
        (done ready : List Text) (counts : Text → ℕ)
        → sort_by text_le ready ≡ []
        → Progress done ready counts
        → Visited done
    unfolding count
    ended done ready counts e v = record {
      topological = v.topological;
      distinct = v.distinct;
      listed = v.listed;
      stuck = λ x k n. ground (
        arith,
        v.single x,
        v.counted x,
        ap (times x) (sym e) ∙ sort_by-count text_le (λ y. text_eq y x) ready,
      );
    }

    add_one : (n : ℕ) → n + 1 ≡ suc n
    add_one n = omega arith

    -- The derivation that is visited next has a count of zero and was not visited.
    module _ (done ready rest : List Text) (counts : Text → ℕ) (d : Text)
        (sorted : sort_by text_le ready ≡ d ∷ rest) (v : Progress done ready counts) where
      times-rest : (x : Text) → bit (text_eq d x) + times x rest ≡ times x ready
      unfolding count
      times-rest x = ap (times x) (sym sorted) ∙ sort_by-count text_le (λ y. text_eq y x) ready

      next_fresh : (contains names d ≡ true) × (counts d ≡ 0) × (contains done d ≡ false)
      next_fresh = (
        ground (arith, times-rest d, text_eq_self d, v.single d),
        ground (arith, times-rest d, text_eq_self d, v.single d),
        ground (arith, times-rest d, text_eq_self d, v.single d),
      )

      -- Whatever needs it still waits for it.
      still_counted : (x : Text) → contains (inputs x) d ≡ true → 0 < counts x
      still_counted x h =
          ground (arith, v.counted x, next_fresh.2, count_marked (inputs x) done d (g.simple x))

      abbrev counts' : Text → ℕ
      counts' = (release (consumers d) counts rest).0

      abbrev ready' : List Text
      ready' = (release (consumers d) counts rest).1

      counts'_lem : (x : Text) → counts' x ≡ counts x - bit (contains (inputs x) d)
      counts'_lem x =
          release-counts (consumers d) counts rest x (consumers-IsUnique d)
          ∙ ap (λ b. counts x - bit b) (consumers-contains d x)

      ready'_lem :
          (x : Text)
          → times x ready' ≡ times x rest + bit (contains (inputs x) d && (counts x - 1 == 0))
      ready'_lem x =
          release-ready (consumers d) counts rest x (consumers-IsUnique d)
          ∙ ap (λ b. times x rest + bit (b && (counts x - 1 == 0))) (consumers-contains d x)

      visit_next : Progress (d ∷ done) ready' counts'
      unfolding contains
      visit_next =
          let (known, zero_count, new) = next_fresh in
          let over =
            All-count_zero (λ j. not (contains done j)) (inputs d)
              (sym (v.counted d) ∙ zero_count) in
          record {
            topological = (
              λ i k.
                  ground
                    (arith, All_contains (λ j. not (contains done j) ≡ false) (inputs d) i over k),
              v.topological,
            );
            distinct = (new, v.distinct);
            listed = λ x k. ground (arith, text_eq_iff d x, v.listed x);
            single = λ x. ground (
              arith,
              ready'_lem x,
              counts'_lem x,
              times-rest x,
              v.single x,
              text_eq_iff d x,
              still_counted x,
              g.outside x d,
            );
            counted = λ x. ground (
              arith,
              counts'_lem x,
              v.counted x,
              count_marked (inputs x) done d (g.simple x) new,
            );
          }

    -- With a round for each derivation that is not visited and one more the loop ends by its test.
    pub visit_ready_lem :
        (selected : Dict Text) (fuel : ℕ) (done ready : List Text) (counts : Text → ℕ)
        → length names < fuel + length done
        → Progress done ready counts
        → (all : List Text) × (visit_ready fuel selected consumers counts ready
              (picked selected done)
              (length done)
            ≡ (picked selected all, length all))
          × Visited all
    unfolding visit_ready
    visit_ready_lem selected zero done ready counts room v = absurd (
        omega (
          arith,
          count-contains done names v.distinct g.distinct v.listed,
          count-le-length (contains done) names,
        ))
    visit_ready_lem selected (suc fuel) done ready counts room v =
        elim (List-cases (sort_by text_le ready)) [
          | inl e ↦ (done, rw (e, visit_ready), ended done ready counts e v)
          | inr (d, rest, e) ↦
              let (all, same, w) =
                visit_ready_lem selected fuel (d ∷ done) (ready' done ready rest counts d e v)
                  (counts' done ready rest counts d e v) (omega arith)
                  (visit_next done ready rest counts d e v) in
              (
                all,
                rw (e, visit_ready)
                    (ap (visit_ready fuel selected consumers _ _ _) (add_one (length done)) ∙ same),
                w,
              )
        ]
