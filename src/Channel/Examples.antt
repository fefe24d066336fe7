-- ===== src/Channel/Examples.antt =====
-- src/channel: concrete channels, and the theorems at them.
pub mod Samples
pub mod Dance
pub mod Opening
