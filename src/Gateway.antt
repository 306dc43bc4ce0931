-- ===== src/Gateway.antt =====
-- services/api-gateway: the middleware of gateway/gateway.ts.
pub mod Exchange
pub mod Routing
pub mod Middleware
