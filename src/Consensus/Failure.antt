-- ===== src/Consensus/Failure.antt =====
-- What the functions of tools/msa-adjudication-workbench/src/consensus.js throw.
use adg_lang.Common.{String}

pub data Failure : Type 0 where
  sentences_missing sentence_ids tokens_missing token_ids coverage_differs : Failure
  sentence_coverage token_coverage decision_coverage type_error : Failure
  unit_not_bound unit_duplicated : String → Failure
