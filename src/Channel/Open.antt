-- ===== src/Channel/Open.antt =====
-- src/channel/mod.rs: from `open_channel` to `channel_ready`.
pub mod Data
pub mod Start
pub mod Fund
pub mod Invariant
pub mod Signing
pub mod Ready
pub mod Steps
