-- ===== src/Peerauth.antt =====
-- internal/peerauth: who may read this node's library, and how a node becomes one of them.
pub mod Store
pub mod Ids
pub mod Auth
pub mod Examples
