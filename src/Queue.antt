-- ===== src/Queue.antt =====
-- The durable queue of rrpp_bridge/queue.py: `JobQueue` and its operations.
pub mod Base
pub mod Enqueue
pub mod Claim
pub mod Recovery
pub mod Keeps
pub mod Serial
pub mod Exclusive
pub mod Operations
pub mod Retries
