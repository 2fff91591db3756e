-- ===== src/Identity.antt =====
-- The host and agent identities of src/asap/auth/identity.py.
pub mod Keys
pub mod Sessions
pub mod Agents
pub mod Revocation
pub mod Rotation
pub mod Hosts
pub mod Index
pub mod Found
pub mod Cascade
