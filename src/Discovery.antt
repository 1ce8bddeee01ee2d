-- ===== src/Discovery.antt =====
-- internal/discovery: node identifiers, the routing table, the DHT.
pub mod NodeId
pub mod Routing
pub mod Dht
