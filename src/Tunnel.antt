-- ===== src/Tunnel.antt =====
-- The Durable Object `HeadscaleTunnel` of headfwd-proxy/src/tunnel-do.ts, with the messages of
-- headfwd-proxy/src/types.ts.
pub mod State
pub mod Access
pub mod Forward
pub mod Sockets
pub mod Messages
pub mod Events
pub mod Handles
pub mod Tidy
pub mod Quiet
pub mod Keeps
pub mod Weight
pub mod Settles
pub mod Exchange
pub mod Upgrades
pub mod Relay
