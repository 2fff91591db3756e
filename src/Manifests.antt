-- ===== src/Manifests.antt =====
-- The cache of manifests: src/asap/transport/cache.py.
pub mod Cache
pub mod Evictions
pub mod Maps
pub mod Runs
pub mod Unlimited
