-- ===== src/Cluster.antt =====
-- server/cluster: the cluster as the local node sees it (state.go, node.go).
pub mod Types
pub mod State
pub mod Lookup
