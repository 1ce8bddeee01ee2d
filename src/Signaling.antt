-- ===== src/Signaling.antt =====
-- internal/signaling: the handshake between two peers over an onion connection.
pub mod Handshake
pub mod Client
pub mod Responder
pub mod Registry
