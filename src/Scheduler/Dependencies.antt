-- ===== src/Scheduler/Dependencies.antt =====
-- worker/scheduler.go: `poolDependencies`, the tasks that a task waits for.
pub mod Exact
use nix_ci_worker.Base.{
  ℕ, zero, suc, Text, List, [], ◌∷◌, ◌++◌, Bool, if◌then◌else◌, contains, keys, length,
}
use nix_ci_worker.Plan.Types.{Plan, derivation}

-- The variables `seen` and `result`.
pub record Search : Type 0 where
  pub seen : List Text
  pub result : List Text

-- graph.Derivations[current].InputDrvs
abbrev pub inputs_of : Plan → Text → List Text
inputs_of graph drv = keys (derivation graph drv).input_drvs

module _ (graph : Plan) (scheduled : Text → Bool) where
  -- One round of the loop over the inputs; `go` is the recursive call.
  unfoldable pub visit_input : (Text → Search → Search) → Text → Search → Search
  visit_input go dep st =
      let marked = record st { seen = dep ∷ st.seen } in
      if contains st.seen dep
      then st
      else if scheduled dep
      then record marked { result = st.result ++ dep ∷ [] }
      else go dep marked

  unfoldable pub visit_inputs : (Text → Search → Search) → List Text → Search → Search
  visit_inputs go [] st = st
  visit_inputs go (dep ∷ deps) st = visit_inputs go deps (visit_input go dep st)

  -- Each call down marks one more derivation, so the number of derivations bounds the depth.
  unfoldable pub visit : ℕ → Text → Search → Search
  visit zero current st = st
  visit (suc fuel) current st = visit_inputs (visit fuel) (inputs_of graph current) st

  unfoldable pub pool_dependencies : Text → List Text
  pool_dependencies drv =
      (visit (suc (length graph.derivations)) drv (record { seen = []; result = [] })).result
