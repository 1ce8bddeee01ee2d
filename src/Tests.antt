-- ===== src/Tests.antt =====
-- Each theorem of the results that has conditions, at a case that meets them.
mod Fixtures
mod Files
mod Peers
mod Handshakes
mod Clients
mod Responders
mod Servers
mod Nodes
mod Registries
mod Chats
mod Auths
mod Connections
