-- ===== src/Peers.antt =====
-- internal/peers: the nodes that this one pulls from.
pub mod Registry
pub mod Callers
pub mod Ids
pub mod Examples
