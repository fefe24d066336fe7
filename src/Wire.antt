-- ===== src/Wire.antt =====
-- src/wire: the BOLT 1 encoding layer below the messages.
pub mod Ser
pub mod BigSize
pub mod Tlv
pub mod Msgs
pub mod Examples
