-- ===== src/Gateway.antt =====
-- internal/gateway/middleware: the rate limiter and access control.
pub mod RateLimit
pub mod Access
pub mod Tests
