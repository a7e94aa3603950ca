-- ===== src/RateLimit.antt =====
-- src/core/ratelimit.py: the circuit breaker and the token bucket of the calls to other services.
pub mod Breaker
pub mod Bucket
