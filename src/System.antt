-- ===== src/System.antt =====
-- The runs of the workers, and the calls that the webhook, the command line and the dashboard make on one
-- database, in any order.
pub mod Operations
pub mod Calls
pub mod Sound
pub mod Stable
