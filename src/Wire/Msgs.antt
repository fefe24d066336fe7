-- ===== src/Wire/Msgs.antt =====
-- src/wire/msgs.rs: the messages and their codec.
pub mod Data
pub mod Put
pub mod Write
pub mod Records
pub mod Read
pub mod Tlvs
pub mod Gossip
pub mod Decode
pub mod Fits
pub mod Valid
pub mod RoundTrip
pub mod Examples
