-- ===== src/Sync.antt =====
-- Synchronisation of model mappings and of proxy assignments between instances by
-- last-write-wins merges: crates/antigravity-types/src/models/sync.
pub mod BTree
pub mod Lww
pub mod Mapping
pub mod Convergence
pub mod Gossip
pub mod ProxyAssignment
pub mod Capacity
pub mod Origin
mod Examples
