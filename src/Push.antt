-- ===== src/Push.antt =====
-- internal/push: delivery of a payload to a device over its transport.
pub mod Json
pub mod Link
pub mod Bark
pub mod Delivery
pub mod Routing
pub mod Contents
