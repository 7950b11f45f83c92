-- ===== src/Plan/Types.antt =====
-- worker/planner.go: the data of a build plan.
use nix_ci_worker.Base.{Text, Dict, List, [], Option, Bool, false, get_or}

-- `nil` outputs are `none`; of the dynamic outputs the code reads the number alone.
pub record DerivationInput : Type 0 where
  pub outputs : Option (List Text)
  pub dynamic_outputs : List Text

-- An output's record has its path as its one field.
pub record Derivation : Type 0 where
  pub system : Text
  pub env : Dict Text
  pub input_drvs : Dict DerivationInput
  pub input_srcs : List Text
  pub dynamic : Bool
  pub outputs : Dict Text

pub record Plan : Type 0 where
  pub targets : Dict Text
  pub derivations : Dict Derivation
  pub required : List Text
  pub outputs : Dict (Dict Text)

-- What Go reads at a missing key.
abbrev pub no_derivation : Derivation
no_derivation = record {
  system = [];
  env = [];
  input_drvs = [];
  input_srcs = [];
  dynamic = false;
  outputs = [];
}

abbrev pub derivation : Plan → Text → Derivation
derivation p drv = get_or p.derivations drv no_derivation
