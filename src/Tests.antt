-- ===== src/Tests.antt =====
-- Inputs at which the theorems apply.
mod Data
mod Pools
mod States
mod Sender
mod Fees
mod Formats
mod Caches
mod Syncs
mod Services
