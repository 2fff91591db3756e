-- ===== src/Approval.antt =====
-- Approval of agent registrations and escalations: src/asap/auth/approval.py.
pub mod Requests
pub mod Decisions
pub mod History
pub mod Outcomes
pub mod Merge
pub mod Flows
pub mod Consent
