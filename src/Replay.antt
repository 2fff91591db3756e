-- ===== src/Replay.antt =====
-- Protection against replayed messages: src/asap/transport/validators.py and the `jti` cache of
-- src/asap/auth/agent_jwt.py.
pub mod Nonces
pub mod Envelopes
pub mod Eviction
pub mod Jti
