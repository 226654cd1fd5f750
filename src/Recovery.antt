-- ===== src/Recovery.antt =====
-- The requests of the backup service to the worker.
pub mod Archives
pub mod Nonces
pub mod OpenPgp
