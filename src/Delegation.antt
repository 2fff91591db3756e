-- ===== src/Delegation.antt =====
-- Delegation tokens: src/asap/economics/delegation.py and src/asap/economics/delegation_storage.py.
pub mod Storage
pub mod Walks
pub mod Cascade
pub mod Revoked
pub mod Tokens
pub mod Live
pub mod Validity
pub mod Accepted
