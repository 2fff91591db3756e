-- ===== src/Webhooks.antt =====
-- Webhooks: src/asap/transport/webhook.py.
pub mod Urls
pub mod Delivery
pub mod Manager
pub mod Attempts
pub mod Bounds
