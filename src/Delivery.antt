-- ===== src/Delivery.antt =====
-- The delivery queue: rrpp_bridge/delivery.py.
pub mod Enqueue
pub mod Permission
pub mod Worker
pub mod Run
pub mod Keeps
pub mod Once
pub mod AtMostOnce
pub mod Drains
pub mod Permitted
