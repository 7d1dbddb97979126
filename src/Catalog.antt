-- ===== src/Catalog.antt =====
-- The catalog of rrpp_bridge/catalog.py.
pub mod Order
pub mod Snapshot
pub mod Bounds
pub mod Editing
pub mod Keeps
pub mod Valid
pub mod Events
pub mod Offers
pub mod Edits
