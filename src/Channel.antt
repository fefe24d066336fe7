-- ===== src/Channel.antt =====
-- src/channel: the BOLT 2 channel state machine.
pub mod Data
pub mod Env
pub mod Messages
pub mod Balance
pub mod Build
pub mod Htlcs
pub mod Send
pub mod Receive
pub mod Commit
pub mod Revoke
pub mod Accounts
pub mod Limits
pub mod Promises
pub mod Open
pub mod Phases
pub mod Close
pub mod Disconnect
pub mod Reestablish
pub mod Invariant
pub mod Examples
