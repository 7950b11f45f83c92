-- ===== src/Plan/Batches/Correct.antt =====
-- What `Plan.Batches` of worker/planner.go guarantees.
use nix_ci_worker.Base.{
  ℕ, ◌≤◌, ◌<◌, ◌≡◌, ◌∙◌, ◌↔◌, refl, ap, arith, Text, List, [], true, false, not, ◌&&◌, map, All,
  IsUnique, bit, times, contains, length, ok, guard, ok_parts, guard-eq-ok,
}
use nix_ci_worker.Base.Int.{ℤ, pos, negsuc, lt_ℤ, pos_part}
use nix_ci_worker.Plan.Types.{Plan}
use nix_ci_worker.Plan.Batches.{before_caret, selection, cut_batches, ordered_builds, batches}
use nix_ci_worker.Plan.Batches.Order.{picked}
use nix_ci_worker.Plan.Batches.Cut.{join, cut_batches-join, cut_batches-limit}
use nix_ci_worker.Plan.Batches.Laws.{
  IsPlan, IsOrder, inputs, inputs_outside, ordered_builds_lem, names,
}
use nix_ci_worker.Plan.Batches.Complete.{
  IsAcyclic, ordered_builds_total, ordered_builds_known, place, place_falls,
}
use nix_ci_worker.Plan.Batches.Builds.{builds}

limit_pos : (limit : ℤ) → not (lt_ℤ limit (pos 1)) ≡ true → 0 < pos_part limit
limit_pos (pos n) h = ground arith
limit_pos (negsuc n) h = ground arith

-- The parts of a run that succeeds.
batches_parts :
    (p : Plan) (missing : List Text) (limit : ℤ) (bs : List (List Text))
    → batches p missing limit ≡ ok bs
    → (0 < pos_part limit)
      × (lt_ℤ limit (pos 1) ≡ false)
      × (ordered : List Text) × (ordered_builds p missing ≡ ok ordered)
      × (bs ≡ cut_batches (length ordered) (pos_part limit) ordered)
unfolding batches
batches_parts p missing limit bs h =
    let (u, tested, rest) = ok_parts (guard (not (lt_ℤ limit (pos 1))) "invalid batch size") _ h in
    let (ordered, found, out) = ok_parts (ordered_builds p missing) _ rest in
    let large = guard-eq-ok (not (lt_ℤ limit (pos 1))) "invalid batch size" tested in
    (limit_pos limit large, ground (arith, large), ordered, found, cc)

-- When batches come out, there is an order of all the plan's derivations, each once and after all its inputs, whose selected builds, in that order, are the batches one after another; no batch is empty or longer than the limit.
pub batches_sound :
    (p : Plan) (missing : List Text) (limit : ℤ) (bs : List (List Text))
    → IsPlan p
    → batches p missing limit ≡ ok bs
    → (done : List Text) × IsOrder p done
      × (join bs ≡ picked (selection missing []) done)
      × All (λ b. (0 < length b) × (length b ≤ pos_part limit)) bs
batches_sound p missing limit bs plan h =
    let (positive, large, ordered, found, out) = batches_parts p missing limit bs h in
    let (done, order, same) = ordered_builds_lem p missing ordered plan found in
    (
      done,
      order,
      ap join out
          ∙ cut_batches-join (length ordered) (pos_part limit) ordered positive (omega arith)
          ∙ same,
      rw out (cut_batches-limit (length ordered) (pos_part limit) ordered positive),
    )

-- When batches come out for missing builds of distinct derivations, a build is in the batches once when it is missing and its derivation is in the plan, and else not at all.
pub batches_exactly_once :
    (p : Plan) (missing : List Text) (limit : ℤ) (bs : List (List Text)) (s : Text)
    → IsPlan p
    → IsUnique (map before_caret missing)
    → batches p missing limit ≡ ok bs
    → times s (join bs) ≡ bit (contains (names p) (before_caret s) && contains missing s)
batches_exactly_once p missing limit bs s plan u h =
    let (done, order, same, sizes) = batches_sound p missing limit bs plan h in
    ap (times s) same
    ∙ builds missing done s u order.distinct
    ∙ ap (λ b. bit (b && contains missing s)) (order.complete (before_caret s))

order_acyclic :
    (p : Plan) (done : List Text)
    → IsOrder p done
    → (x i : Text) → contains (inputs p x) i ≡ true
    → place done i < place done x
order_acyclic p done order x i h =
    place_falls (inputs p) done x i order.topological order.distinct
      (order.complete x ∙ inputs_outside p x i h) h

-- Batches come out exactly when the limit is at least one, every input of a derivation is a derivation of the plan, and the plan has no cycle: some rank falls from each derivation to its inputs.
pub batches_total :
    (p : Plan) (missing : List Text) (limit : ℤ)
    → IsPlan p
    → ((bs : List (List Text)) × (batches p missing limit ≡ ok bs))
      ↔ ((lt_ℤ limit (pos 1) ≡ false) × (rank : Text → ℕ) × IsAcyclic p rank)
unfolding batches
batches_total p missing limit plan = (
  λ (bs, h).
      let (positive, large, ordered, found, out) = batches_parts p missing limit bs h in
      let (done, order, same) = ordered_builds_lem p missing ordered plan found in
      (
        large,
        place done,
        record {
          known = ordered_builds_known p missing ordered found;
          falls = order_acyclic p done order;
        },
      ),
  λ (large, rank, acyclic).
      let (ordered, found) = ordered_builds_total p missing rank plan acyclic in
      (cut_batches (length ordered) (pos_part limit) ordered, rw (large, found) refl),
)
