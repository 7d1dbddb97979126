-- ===== src/Workspace.antt =====
-- The operator workspace: rrpp_bridge/workspace.py.
pub mod Conversations
pub mod Reviews
pub mod Control
pub mod Keeps
pub mod Venues
