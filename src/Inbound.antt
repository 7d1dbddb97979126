-- ===== src/Inbound.antt =====
-- The messages that come in: rrpp_bridge/adapters and rrpp_bridge/instagram_webhook.py.
pub mod Attempt
pub mod Routing
pub mod Instagram
pub mod Local
pub mod Webhook
pub mod Reasons
pub mod Accepted
pub mod Messages
pub mod Requests
pub mod Replays
pub mod Keeps
