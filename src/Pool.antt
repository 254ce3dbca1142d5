-- ===== src/Pool.antt =====
-- zp-relayer/pool: what the pools share, and the validation of transactions.
pub mod Types
pub mod Recover
pub mod Amounts
pub mod Relay
pub mod Default
pub mod Ledger
pub mod Finalizer
