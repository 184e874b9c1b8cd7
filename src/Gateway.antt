-- ===== src/Gateway.antt =====
-- src/gateway.rs: downstream demand with its reference counts (Registry), the ceilings of the
-- providers (Limits) and the routing of events to clients (Hub).
pub mod Limits
pub mod Registry
pub mod Hub
