-- ===== src/Limits.antt =====
-- Token buckets: src/asap/transport/rate_limit.py and src/asap/transport/webhook.py.
pub mod Bucket
pub mod Rates
