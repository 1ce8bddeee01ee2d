-- ===== src/Identity.antt =====
-- internal/identity: addresses and key pairs.
pub mod Address
pub mod Keypair
