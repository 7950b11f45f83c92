-- ===== src/Tests/BatchesRuns.antt =====
-- `Plan.Batches` of worker/planner.go on a library, a program that needs it and a tool.
use nix_ci_worker.Base.{
  ℕ, ◌≡◌, ◌≤◌, ◌<◌, ◌↔◌, refl, Text, List, [], ◌∷◌, some, false, ◌&&◌, All, length, bit, times,
  contains, text_eq, text_le, lookup, insert, codes, ok, sort_by,
}
use nix_ci_worker.Base.Int.{pos, lt_ℤ}
use nix_ci_worker.Plan.Types.{Plan, no_derivation}
use nix_ci_worker.Plan.Batches.{
  before_caret, selection, add_edges, add_derivations, release, visit_ready, split_at, cut_batches,
  ordered_builds, batches,
}
use nix_ci_worker.Plan.Batches.Order.{picked}
use nix_ci_worker.Plan.Batches.Cut.{join}
use nix_ci_worker.Plan.Batches.Laws.{IsPlan, IsOrder, names}
use nix_ci_worker.Plan.Batches.Complete.{IsAcyclic}
use nix_ci_worker.Plan.Batches.Correct.{batches_sound, batches_exactly_once, batches_total}

abbrev library : Text
library = codes "/l.drv"

abbrev program : Text
program = codes "/p.drv"

abbrev tools : Text
tools = codes "/a.drv"

abbrev builds : List Text
builds = codes "/p.drv^out" ∷ codes "/l.drv^dev" ∷ []

abbrev sample : Plan
sample = record {
  targets = [];
  derivations =
      (
        program,
        record no_derivation {
          input_drvs = (library, record { outputs = some []; dynamic_outputs = [] }) ∷ [];
        },
      )
      ∷ (library, no_derivation)
      ∷ (tools, no_derivation)
      ∷ [];
  required = [];
  outputs = [];
}

sample-batches :
    batches sample builds (pos 1) ≡ ok ((codes "/l.drv^dev" ∷ []) ∷ (codes "/p.drv^out" ∷ []) ∷ [])
unfolding batches ordered_builds selection before_caret add_derivations add_edges release
    visit_ready cut_batches split_at insert lookup text_eq sort_by text_le
sample-batches = refl

sample-IsPlan : IsPlan sample
unfolding contains text_eq
sample-IsPlan = record {
  distinct = (refl, (refl, (refl, tt)));
  simple = ((refl, tt), (tt, (tt, tt)));
}

batches_sound_example :
    (done : List Text) × IsOrder sample done
    × (join ((codes "/l.drv^dev" ∷ []) ∷ (codes "/p.drv^out" ∷ []) ∷ [])
        ≡ picked (selection builds []) done)
    × All
        (λ b. (0 < length b) × (length b ≤ 1))
        ((codes "/l.drv^dev" ∷ []) ∷ (codes "/p.drv^out" ∷ []) ∷ [])
batches_sound_example = batches_sound sample builds (pos 1) _ sample-IsPlan sample-batches

batches_exactly_once_example :
    times (codes "/l.drv^dev") (join ((codes "/l.drv^dev" ∷ []) ∷ (codes "/p.drv^out" ∷ []) ∷ []))
    ≡ bit (
        contains (names sample) (before_caret (codes "/l.drv^dev"))
        && contains builds (codes "/l.drv^dev"))
unfolding contains text_eq before_caret
batches_exactly_once_example =
    batches_exactly_once sample builds (pos 1) _ (codes "/l.drv^dev") sample-IsPlan
      (refl, (refl, tt)) sample-batches

batches_total_example :
    ((bs : List (List Text)) × (batches sample builds (pos 1) ≡ ok bs))
    ↔ ((lt_ℤ (pos 1) (pos 1) ≡ false) × (rank : Text → ℕ) × IsAcyclic sample rank)
batches_total_example = batches_total sample builds (pos 1) sample-IsPlan
