-- ===== src/Tests.antt =====
-- Runs of the operations on small states, and the theorems at them.
mod Replicas
mod Histories
mod Routes
mod Handlers
mod Clocks
mod Formats
mod Packets
mod Streams
mod Servers
mod Transport
