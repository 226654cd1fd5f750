-- ===== src/Consensus.antt =====
-- tools/msa-adjudication-workbench/src/consensus.js
pub mod States
pub mod Failure
pub mod Coverage
pub mod Decisions
pub mod EventHash
pub mod Floats
pub mod Agreement
