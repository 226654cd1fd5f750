-- ===== src/Journal.antt =====
-- The journal of writes to PostgreSQL: a write is put into a table of D1 before it is sent, and
-- is replayed from there when its outcome is unknown or when PostgreSQL was restored.
pub mod Errors
pub mod Payload
pub mod Entries
pub mod Postgres
pub mod Calls
pub mod Backed
pub mod Writes
pub mod Replay
