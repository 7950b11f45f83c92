-- ===== src/Scheduler/Job.antt =====
-- worker/scheduler.go: what the assigner knows before its loop starts, and which builder may take
-- which derivation.
use nix_ci_worker.Base.{
  ℕ, ◌==◌, Text, List, [], ◌∷◌, ◌++◌, Option, none, some, Bool, false, not, ◌&&◌, ◌||◌,
  if◌then◌else◌, all, codes, text_eq, contains, keys, get_or, lookup, leb, sort_by, text_le,
}
use nix_ci_worker.Base.Int.{ℤ}
use nix_ci_worker.Plan.Types.{Plan, Derivation, derivation}

-- The two attributes that `poolCompatible` reads in a derivation's `__json`.
pub record Attributes : Type 0 where
  pub required : List Text
  pub local : Bool

-- The white space of `strings.Fields`, in ASCII.
unfoldable pub is_space : ℕ → Bool
is_space c = c == 32 || c == 9 || c == 10 || c == 11 || c == 12 || c == 13

-- The word read so far goes before the words of the rest.
flush : Text → List Text → List Text
flush [] ws = ws
flush (c ∷ w) ws = (c ∷ w) ∷ ws

fields_from : Text → Text → List Text
unfolding is_space flush
fields_from word [] = flush word []
fields_from word (c ∷ s) =
    let here = fields_from [] s in
    let on = fields_from (word ++ c ∷ []) s in if is_space c then flush word here else on

-- strings.Fields
unfoldable pub fields : Text → List Text
unfolding fields_from
fields s = fields_from [] s

-- `json.Unmarshal` of the two attributes is a parameter.
module _ (decode : Text → Option Attributes) where
  -- `none`: the attributes cannot be read.
  unfoldable pub attributes : Derivation → Option Attributes
  unfolding text_eq lookup fields
  attributes d =
      let raw = get_or d.env (codes "__json") [] in
      let words = fields (get_or d.env (codes "requiredSystemFeatures") []) in
      let prefers = text_eq (get_or d.env (codes "preferLocalBuild") []) (codes "1") in
      if text_eq raw []
      then some (record { required = words; local = prefers })
      else elim (decode raw) [
        | none ↦ none
        | some a ↦ some (record { required = words ++ a.required; local = prefers || a.local })
      ]

  -- The last three tests of `poolCompatible`.
  unfoldable pub accepts : Derivation → Text → List Text → Attributes → Bool
  unfolding text_eq contains
  accepts d system features a =
      not (d.dynamic || not (text_eq d.system []) && not (text_eq d.system system) || a.local)
      && all (λ e. not (text_eq e.1 [])) d.outputs
      && all (contains features) a.required

  unfoldable pub pool_compatible : Derivation → Text → List Text → Bool
  unfolding attributes accepts
  pool_compatible d system features = elim (attributes d) [
    | none ↦ false
    | some a ↦ accepts d system features a
  ]

-- The values that `schedule` computes once.
pub record Job : Type 0 where
  pub graph : Plan
  pub system : Text
  pub cpus : ℤ
  pub lease : ℕ
  pub deadline : ℕ
  -- the keys of `specs`, and the same sorted by priority
  pub tasks : List Text
  pub order : List Text
  pub deps : Text → List Text
  pub priority : Text → ℕ
  pub compatible : Derivation → Text → List Text → Bool

-- graph.Derivations[drv].InputDrvs
abbrev pub inputs : Job → Text → List Text
inputs job drv = keys (derivation job.graph drv).input_drvs

abbrev pub suits : Job → Text → List Text → Bool
suits job drv features = job.compatible (derivation job.graph drv) job.system features

-- poolOrder: by name, then by falling priority, stably.
unfoldable pub pool_order : (Text → ℕ) → List Text → List Text
unfolding sort_by text_le
pool_order priority names = sort_by (λ a b. leb (priority b) (priority a)) (sort_by text_le names)
