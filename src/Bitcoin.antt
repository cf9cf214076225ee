-- ===== src/Bitcoin.antt =====
-- The Bitcoin control plane of operators/network/internal/bitcoincontrol.
pub mod Types
pub mod Batch
pub mod Receipts
pub mod Gates
pub mod Drain
pub mod Fixtures
pub mod Examples
