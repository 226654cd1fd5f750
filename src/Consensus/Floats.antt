-- ===== src/Consensus/Floats.antt =====
-- The floating point numbers of the metrics in tools/msa-adjudication-workbench/src/consensus.js:
-- their type and the operations that the code uses. They belong to the language's runtime.
use adg_lang.Common.{ℕ, Bool}

pub record Floats : Type 1 where
  pub Float : Type 0
  pub of_ℕ : ℕ → Float
  pub add : Float → Float → Float
  pub sub : Float → Float → Float
  pub mul : Float → Float → Float
  pub div : Float → Float → Float
  pub eq : Float → Float → Bool
  pub lt : Float → Float → Bool
  pub le : Float → Float → Bool
