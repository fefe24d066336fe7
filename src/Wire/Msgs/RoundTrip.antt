-- ===== src/Wire/Msgs/RoundTrip.antt =====
-- src/wire/msgs.rs: `decode` on what `encode` writes.
pub mod Channel
pub mod Gossip
pub mod Signatures
pub mod Records
pub mod Tlvs
pub mod Nodes
pub mod Codec
pub mod Appends
