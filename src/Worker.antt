-- ===== src/Worker.antt =====
-- The worker of the workbench, tools/msa-adjudication-workbench/src/index.js.
pub mod Eligibility
pub mod Drafts
