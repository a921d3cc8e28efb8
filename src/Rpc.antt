-- ===== src/Rpc.antt =====
-- What guards the RPC server, src/rpc/rate_limiter.cpp.
pub mod RateLimiter
