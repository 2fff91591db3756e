-- ===== src/Capability.antt =====
-- Capabilities and their grants: src/asap/auth/capabilities.py.
pub mod Constraints
pub mod Registry
pub mod Operators
pub mod Meets
pub mod Soundness
pub mod Escalation
pub mod Defaults
pub mod Granting
pub mod Keeping
