-- ===== src/Sql.antt =====
-- The SQL texts of tools/msa-adjudication-workbench/src/database.js.
pub mod Placeholders
