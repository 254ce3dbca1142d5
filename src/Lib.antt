-- ===== src/Lib.antt =====
-- zeropool-relayer: the relayer of a privacy pool, which validates users' transactions, sends them to
-- the pool's contract, follows them until they are mined, and keeps the state that they change.
--
-- The parts and their files, with paths from the repository's root:
--   Base, Numerals, Helpers   shared lists, integers and results; the printing of numbers by bn.js and
--                             web3-utils as an interface; zp-relayer/utils/helpers.ts
--   Memo                      zp-memo-parser/memo.ts: getTxData, getTxDataProverV2, the note hashes
--   Validation                zp-relayer/validation/tx/common.ts, a function for each check; Caps has
--                             checkLimits and BasePool.processLimits, Deadline has checkDeadline
--   State                     zp-relayer/state: PoolState, NullifierSet, JobIdsMapping; Rollback and
--                             Paging hold what the loops leave
--   Cache                     zp-relayer/state/TxStore.ts; Observer and Relay have the local cache of
--                             RelayPool: its observer, onSend, onConfirmed, onFailed
--   Pool                      zp-relayer/pool: validateNormalTx, onSend, onConfirmed of DefaultPool,
--                             validateTx of RelayPool, onFailed of BasePool; Ledger is what the default
--                             pool promises about nullifiers; Finalizer is FinalizerPool
--   Sync                      BasePool: addTxToState, propagateOptimisticState, syncState; Rounds has
--                             the loops over an indexer's pages and over the contract's events, Ahead
--                             the steps that change the two states
--   Calldata                  buildNormalTx of both pools, utils/PoolCalldataParser.ts and the branches
--                             of BasePool.addTxToState that read calldata
--   Gas, Fee                  zp-relayer/lib/gas-price, zp-relayer/lib/fee and zp-relayer/lib/price-feed
--   TxManager                 zp-relayer/lib/network/evm/EvmTxManager.ts, utils/web3Errors.ts,
--                             lib/network/tron/TronTxManager.ts
--   Workers                   zp-relayer/workers/poolTxWorker.ts and sentTxWorker.ts, withLoop
--   Batch, Deposits           zp-relayer/services/direct-deposit: BatchCache.ts, and the service in
--                             watcher.ts with validation/tx/validateDirectDeposit.ts and the worker
--                             workers/directDepositWorker.ts
--   Watching                  zp-relayer/watcher/Watcher.ts over the batches of lib/network/evm/
--                             EvmBackend.ts, and services/commitment-watcher/init.ts
--   Permits                   zp-relayer/utils/permit
--   Providers                 zp-relayer/lib/providers/HttpListProvider.ts
--   Endpoints                 the answers of services/indexer/router.ts and services/relayer/
--                             endpoints.ts that are more than one call
--   Tests                     inputs at which the theorems apply
--
-- How they interact: the pool worker asks a pool to validate and build a transaction, takes a nonce
-- from the transaction manager, tells the pool that it is sent, and queues it for the sent worker,
-- which asks the manager for a receipt, re-sends with a greater price, and finally tells the pool that
-- the transaction is confirmed or has failed. The workers share a mutex, so that a run is one step; the
-- record Workers.Pool is what they use of a pool.
--
-- Around these, a pool that starts or falls behind synchronises its confirmed and its optimistic state
-- from the contract's events or from an indexer. The relay pool keeps what it has sent in a local cache
-- until the indexer shows it, and the relayer's page is the indexer's answer followed by that cache. The
-- direct deposit service is a watcher of blocks whose processor fills the batch cache, which validates
-- deposits and hands batches to the worker that proves them.
--
-- How code is modelled: a class is a record of its mutable fields, and a method a function from the
-- record to the new one; a method that throws returns an Outcome, and one that returns an error or null
-- an Option. Texts are lists of character codes. BN is ℤ, or ℕ where the source has no negative number;
-- a Buffer is the list of its bytes, in Calldata its hexadecimal text. Log messages are left out, and
-- so are the values that an error message interpolates.
--
-- Code outside the repository is a parameter: Pool.Types.Services for libzkbob, the contracts, the
-- clock and the screener; State.Services for the Merkle tree, the transaction storage and the Redis
-- sets, with laws; Numerals for the printing of numbers, with laws; signing and the node in TxManager
-- and Workers. Numerals.Positional, State.Services.simple_storage and State.Services.function_set are
-- instances that satisfy the laws, and so is Cache.Hash.pair_hash for the hashes of Redis; the queue of
-- finalizations, the indexer, the events of the contract, the encoder of the ABI and the provers are
-- records or arguments of the modules that call them.
--
-- Fuel: the deletion loop of the state gets its upper index as fuel, one unit for each step of 128;
-- JobIds.get gets more than the rank of an id; with_loop counts its rounds, and the source has no
-- bound there; the loop of BatchCache.execute gets more than the number of entries of the set, since
-- each further round takes one at least, and so does that of processCache. syncState counts its rounds
-- and the pages of a round: its loops have no bound in the source, and none means that the fuel ran out;
-- the observer of the local cache counts its rounds in the same way, and what other calls do to the
-- cache between two rounds is an argument. The batches of getEvents get a unit
-- of fuel for each block of the range, since a batch has one block at least; the retries of a request
-- are a number of the options.
--
-- Not modelled: the network backends, the guard service, whose router imports modules that the
-- repository does not hold, the fields of typed data, the JSON schemas of requests and their HTTP
-- handlers, the calldata of direct deposits in the default pool, which the source encodes without a
-- signature, configuration, the other providers and the tests. They call libraries and nodes more than
-- they decide.
pub mod Base
pub mod Numerals
pub mod Helpers
pub mod Memo
pub mod Validation
pub mod State
pub mod Pool
pub mod Gas
pub mod TxManager
pub mod Fee
pub mod Workers
pub mod Calldata
pub mod Batch
pub mod Deposits
pub mod Cache
pub mod Sync
pub mod Endpoints
pub mod Watching
pub mod Providers
pub mod Permits
mod Tests
