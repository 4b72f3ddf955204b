-- ===== src/Gossip.antt =====
-- pkg/gossip: the versioned state that every node keeps of every node, and its exchange.
pub mod Types
pub mod Detector
pub mod Sort
pub mod State
pub mod Local
pub mod Delta
pub mod Apply
pub mod Liveness
pub mod Expiry
pub mod Windows
pub mod Samples
pub mod Suspicion
pub mod Decided
pub mod Discard
pub mod Floor
pub mod Sync
pub mod System
pub mod Published
pub mod Protocol
pub mod Packets
pub mod Streams
