-- ===== src/Transport.antt =====
-- internal/transport: the connector and the traversal of NATs.
pub mod Connector
pub mod Nat
