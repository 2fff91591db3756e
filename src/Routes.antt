-- ===== src/Routes.antt =====
-- The agent identity endpoints: src/asap/transport/agent_routes.py, with src/asap/transport/_auth_helpers.py.
pub mod Caller
pub mod Lifecycle
pub mod Status
pub mod Registration
pub mod Register
pub mod Admitted
pub mod Consented
pub mod Owners
pub mod Granted
pub mod Decided
pub mod Licence
pub mod Distinct
pub mod Rotating
