-- ===== src/Websocket.antt =====
-- The WebSocket client: src/asap/transport/ws/.
pub mod Acks
pub mod Rounds
pub mod Budget
pub mod Retries
