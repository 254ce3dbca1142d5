-- ===== src/Watching.antt =====
-- zp-relayer/watcher/Watcher.ts, with `getEvents` of zp-relayer/lib/network/evm/EvmBackend.ts, and
-- `processCommitment` of zp-relayer/services/commitment-watcher/init.ts.
pub mod Blocks
pub mod Commitments
use zeropool_relayer.Base.{
  ℕ, zero, suc, ◌+◌, ◌-◌, min, max, Bool, true, false, List, [], ◌∷◌, Option, none, some, Outcome,
  ok, throws, ltb, leb, if◌then◌else◌,
}

-- A batch of blocks.
pub record Range : Type 0 where
  pub from_block : ℕ
  pub to_block : ℕ

-- The batches of `getEvents`, with fuel: from `from_block` to `last_block`, where `to_block` is the end
-- of the batch before.
unfoldable pub ranges_from : ℕ → ℕ → ℕ → ℕ → ℕ → List Range
ranges_from zero batch_size last_block from_block to_block = []
ranges_from (suc fuel) batch_size last_block from_block to_block =
    let to = min (to_block + batch_size) last_block in
    let rest = ranges_from fuel batch_size last_block (suc to) to in
    if leb from_block last_block
    then record { from_block = from_block; to_block = to } ∷ rest
    else []

-- `getEvents` of the EVM backend, on the blocks; one unit of fuel for each block is enough
unfoldable pub event_ranges : ℕ → ℕ → ℕ → List Range
unfolding ranges_from
event_ranges batch_size start_block last_block =
    ranges_from (suc last_block - start_block) batch_size last_block start_block start_block

-- `WatcherConfig`, less the event and the interval
pub record WatcherConfig : Type 0 where
  pub block_confirmations : ℕ
  pub start_block : ℕ
  pub batch_size : ℕ

-- The last processed block at first: that of Redis, or that of the configuration.
unfoldable pub init_block : WatcherConfig → Option ℕ → ℕ
init_block c none = c.start_block - 1
init_block c (some saved) = saved

-- A watcher: its last processed block, the batches that its processor has completed, and what the
-- processor changes.
pub record Watcher (S : Type 0) : Type 0 where
  pub last_processed_block : ℕ
  pub completed : List Range
  pub store : S

module _ {S : Type 0} (process : Range → S → S × Outcome (Unit {0})) where
  -- The loop over the batches; an error of the processor ends it.
  unfoldable pub process_ranges : List Range → Watcher S → Watcher S
  process_ranges [] w = w
  process_ranges (b ∷ bs) w =
      let (store, done) = process b w.store in
      let rest = process_ranges bs (record {
        last_processed_block = b.to_block;
        completed = b ∷ w.completed;
        store = store;
      }) in
      elim done [ throws e ↦ record w { store = store } | ok u ↦ rest ]

  -- `watch`; the block number minus the confirmations is not negative
  unfoldable pub watch : WatcherConfig → ℕ → Watcher S → Watcher S
  unfolding process_ranges event_ranges
  watch c last_block_number w =
      let from_block = suc w.last_processed_block in
      let to_block = min (last_block_number - c.block_confirmations) (from_block + c.batch_size) in
      process_ranges (event_ranges c.batch_size from_block to_block) w
