-- ===== src/Plan/Batches.antt =====
-- worker/planner.go: `Plan.Batches`, the topological order of the builds, in batches.
pub mod Release
pub mod Graph
pub mod Order
pub mod Cut
pub mod Laws
pub mod Complete
pub mod Builds
pub mod Correct
use nix_ci_worker.Base.{
  ℕ, zero, suc, ◌+◌, ◌-◌, ◌==◌, Text, Dict, List, [], ◌∷◌, ◌++◌, Option, none, some, Bool, not,
  if◌then◌else◌, has, lookup, insert, keys, update, length, sort_by, text_le, Result, ok, err,
  ◌>>=◌, ◌>>◌, guard, min, ltb,
}
use nix_ci_worker.Base.Int.{ℤ, pos, lt_ℤ, pos_part}
use nix_ci_worker.Plan.Types.{Plan, Derivation}

-- strings.SplitN(s, "^", 2)[0]
unfoldable pub before_caret : Text → Text
before_caret [] = []
before_caret (c ∷ s) = if c == b'^' then [] else c ∷ before_caret s

-- The builds that are asked for, by derivation.
unfoldable pub selection : List Text → Dict Text → Dict Text
selection [] m = m
selection (s ∷ ss) m = selection ss (insert (before_caret s) s m)

-- The variables `counts`, `consumers` and `ready`. `counts` never falls below zero.
pub record Degrees : Type 0 where
  pub counts : Text → ℕ
  pub consumers : Text → List Text
  pub ready : List Text

unfoldable pub add_edges : Plan → Text → List Text → (Text → List Text) → Result (Text → List Text)
add_edges p drv [] consumers = ok consumers
add_edges p drv (dep ∷ deps) consumers =
    if has p.derivations dep
    then add_edges p drv deps (update consumers dep (consumers dep ++ drv ∷ []))
    else err "missing dependency derivation"

-- The loop over the derivations.
unfoldable pub add_derivations : Plan → Dict Derivation → Degrees → Result Degrees
add_derivations p [] g = ok g
add_derivations p ((drv, d) ∷ ds) g = do
  let count = length d.input_drvs
  consumers ← add_edges p drv (keys d.input_drvs) g.consumers
  add_derivations p ds (record {
    counts = update g.counts drv count;
    consumers = consumers;
    ready = if count == 0 then g.ready ++ drv ∷ [] else g.ready;
  })

-- The loop over the consumers of a derivation that is visited.
unfoldable pub release : List Text → (Text → ℕ) → List Text → (Text → ℕ) × List Text
release [] counts ready = (counts, ready)
release (c ∷ cs) counts ready =
    let n = counts c - 1 in
    release cs (update counts c n) (if n == 0 then ready ++ c ∷ [] else ready)

-- The derivation's build, if it is asked for.
abbrev pub pick : Dict Text → Text → List Text
pick selected drv = elim (lookup drv selected) [ none ↦ [] | some v ↦ v ∷ [] ]

-- `for len(ready) > 0`: a round for each derivation and one more are enough.
unfoldable pub visit_ready :
    ℕ → Dict Text → (Text → List Text) → (Text → ℕ) → List Text → List Text → ℕ → List Text × ℕ
visit_ready zero selected consumers counts ready ordered visited = (ordered, visited)
visit_ready (suc fuel) selected consumers counts ready ordered visited =
    elim (sort_by text_le ready) [
      | [] ↦ (ordered, visited)
      | drv ∷ rest ↦
          let (counts', ready') = release (consumers drv) counts rest in
          visit_ready fuel selected consumers counts' ready' (ordered ++ pick selected drv)
            (visited + 1)
    ]

-- The first `n` strings, and the others.
unfoldable pub split_at : ℕ → List Text → List Text × List Text
split_at zero xs = ([], xs)
split_at (suc n) [] = ([], [])
split_at (suc n) (x ∷ xs) = let (a, b) = split_at n xs in (x ∷ a, b)

-- `for len(ordered) > 0`: each batch takes one string at least.
unfoldable pub cut_batches : ℕ → ℕ → List Text → List (List Text)
cut_batches zero limit ordered = []
cut_batches (suc fuel) limit [] = []
cut_batches (suc fuel) limit (x ∷ xs) =
    let (batch, rest) = split_at (min limit (length (x ∷ xs))) (x ∷ xs) in
    batch ∷ cut_batches fuel limit rest

abbrev pub no_degrees : Degrees
no_degrees = record { counts = λ _. 0; consumers = λ _. []; ready = [] }

unfoldable pub ordered_builds : Plan → List Text → Result (List Text)
ordered_builds p missing = do
  let selected = selection missing []
  g ← add_derivations p p.derivations no_degrees
  let result = visit_ready (suc (length p.derivations)) selected g.consumers g.counts g.ready [] 0
  guard (result.1 == length p.derivations) "cyclic derivation graph"
  ok result.0

unfoldable pub batches : Plan → List Text → ℤ → Result (List (List Text))
batches p missing limit = do
  guard (not (lt_ℤ limit (pos 1))) "invalid batch size"
  ordered ← ordered_builds p missing
  ok (cut_batches (length ordered) (pos_part limit) ordered)
