-- ===== src/Executor.antt =====
-- The worker that turns a job into an action: rrpp_bridge/executor.py, with the local sink of
-- rrpp_bridge/action_executor.py.
pub mod Sink
pub mod Context
pub mod Stage
pub mod Worker
pub mod Safety
pub mod Review
pub mod Sinks
pub mod Keeps
