-- ===== src/Circuit.antt =====
-- The circuit breaker: src/asap/transport/circuit_breaker.py. Times are ticks of `time.time()`, read
-- once by each operation and given as an argument; the lock makes each operation one step.
pub mod Breaker
pub mod Admission
pub mod Tripping
pub mod Registry
