-- ===== src/Bitcoin.antt =====
-- src/bitcoin: scripts and transactions.
pub mod Script
pub mod Tx
