-- ===== src/Upstream.antt =====
-- server/upstream/manager.go: the routes to the upstreams of every endpoint.
pub mod LoadBalancer
pub mod Manager
pub mod RoundRobin
pub mod Agreement
pub mod Leaving
pub mod Routing
pub mod Server
pub mod Sessions
pub mod Connected
