-- ===== src/Client.antt =====
-- The HTTP and WebSocket client: src/asap/transport/client/.
pub mod Send
pub mod Retries
pub mod Probing
