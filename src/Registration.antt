-- ===== src/Registration.antt =====
-- The registration endpoints of headfwd-proxy/src/index.ts.
pub mod State
pub mod Legacy
pub mod Init
pub mod Verify
pub mod Keys
pub mod Lookup
pub mod Honest
pub mod Outcome
pub mod Published
pub mod Stored
pub mod Sound
pub mod Steps
pub mod Attempts
pub mod Replay
pub mod Credentials
pub mod Fallback
