-- ===== src/Store.antt =====
-- The database and the calls on it: rrpp_bridge/db.py, rrpp_bridge/audit.py and the tables.
pub mod Rows
pub mod Monad
pub mod Keeps
pub mod Ensures
pub mod Silent
pub mod Meets
