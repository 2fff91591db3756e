-- ===== src/Audit.antt =====
-- The audit log of src/asap/economics/audit.py, a chain of hashes.
pub mod Log
pub mod Bars
pub mod Chain
pub mod Pages
