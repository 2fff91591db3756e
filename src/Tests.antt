-- ===== src/Tests.antt =====
-- Examples of every component, on concrete inputs.
mod Tasks
mod Versions
mod Audits
mod Breakers
mod Sends
mod Replays
mod Approvals
mod Identities
mod Capabilities
mod Delegations
mod Tokens
mod HostTokens
mod Manifests
mod Rates
mod Hooks
mod Bearers
mod Endpoints
mod Acks
mod Registrations
