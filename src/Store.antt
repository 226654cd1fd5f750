-- ===== src/Store.antt =====
-- tools/msa-adjudication-workbench/src/consensus-store.js
pub mod Tables
pub mod Calls
pub mod Keeps
pub mod Gives
pub mod Transition
pub mod Registration
pub mod Reissue
