-- ===== src/OpenClaw.antt =====
-- The provider of decisions that asks the OpenClaw Gateway: rrpp_bridge/openclaw_client.py.
pub mod Failure
pub mod Payload
pub mod Decision
pub mod Client
pub mod Answers
pub mod Fences
pub mod Formats
pub mod Diagnostics
