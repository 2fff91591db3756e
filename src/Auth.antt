-- ===== src/Auth.antt =====
-- Host and agent tokens: src/asap/auth/agent_jwt.py and src/asap/auth/agent_jwt_session.py.
pub mod Claims
pub mod Slide
pub mod Verify
pub mod Authentic
pub mod Accepted
pub mod Guarantees
pub mod HostTokens
