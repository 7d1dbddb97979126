-- ===== src/Common/Lists.antt =====
-- Tables as lists of rows: the queries and statements, and their laws.
mod Defs
mod Laws
unfoldable pub use Defs.*
pub use Laws.*
