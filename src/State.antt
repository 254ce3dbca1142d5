-- ===== src/State.antt =====
-- zp-relayer/state: the pool state (PoolState.ts), the set of nullifiers (nullifierSet.ts), the map of
-- job ids (jobIdsMapping.ts) and the cache of sent transactions (TxStore.ts). The Merkle tree, the
-- storage of transactions and Redis are parameters.
pub mod Services
pub mod Nullifiers
pub mod PoolState
pub mod Rollback
pub mod Paging
pub mod JobIds
