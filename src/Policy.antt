-- ===== src/Policy.antt =====
-- The delivery policy: rrpp_bridge/policy.py.
pub mod Words
pub mod Patterns
pub mod Checks
pub mod Decide
pub mod Allowed
pub mod Outcomes
pub mod Evaluation
