-- ===== src/Scenarios.antt =====
-- Concrete inputs, and what the theorems give on them.
mod Data
mod Outgoing
mod Incoming
pub mod Arrivals
pub mod Accounts
pub mod Environ
pub mod Pruned
pub mod Starting
pub mod Whole
pub mod Gateway
pub mod Editing
