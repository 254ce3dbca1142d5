-- ===== src/State/PoolState.antt =====
-- zp-relayer/state/PoolState.ts
use zeropool_relayer.Base.{
  ℕ, zero, suc, ◌+◌, ◌*◌, ◌/◌, Text, List, [], ◌∷◌, Option, none, some, ltb, if◌then◌else◌,
}
use zeropool_relayer.State.Services.{Storage, RedisSet}
use zeropool_relayer.State.Nullifiers

-- `OUTPLUSONE`: `Constants.OUT + 1`, the 128 of `isDivBy128` in validation/api/validation.ts
abbrev pub out_plus_one : ℕ
out_plus_one = 128

module _ (st : Storage) (r : RedisSet) where
  -- The mutable parts of the class; the map of job ids is shared, and kept in JobIds.
  pub record PoolState : Type 0 where
    pub tree : st.Tree
    pub txs : st.Txs
    pub nullifiers : r.Members

  unfoldable pub get_next_index : PoolState → ℕ
  get_next_index s = st.get_next_index s.tree

  unfoldable pub get_merkle_root : PoolState → Text
  get_merkle_root s = st.get_root s.tree

  unfoldable pub get_merkle_root_at : PoolState → ℕ → Option Text
  get_merkle_root_at s index = st.get_root_at s.tree index

  unfoldable pub get_commitment : PoolState → ℕ → Text
  get_commitment s index = st.get_commitment s.tree index

  unfoldable pub get_db_tx : PoolState → ℕ → Option Text
  get_db_tx s i = st.get s.txs i

  unfoldable pub add_commitment : PoolState → ℕ → Text → PoolState
  add_commitment s index commit = record s { tree = st.add_commitment s.tree index commit }

  unfoldable pub add_tx : PoolState → ℕ → Text → PoolState
  add_tx s i tx = record s { txs = st.add s.txs i tx }

  -- `updateState`
  unfoldable pub update_state : PoolState → ℕ → Text → Text → PoolState
  unfolding add_commitment add_tx
  update_state s commit_index out_commit tx_data =
      add_tx (add_commitment s commit_index out_commit) (commit_index * out_plus_one) tx_data

  -- `for (let i = from; i < to; i += OUTPLUSONE) this.txs.delete(i)`, with fuel
  unfoldable pub delete_range : ℕ → ℕ → ℕ → st.Txs → st.Txs
  delete_range zero i to txs = txs
  delete_range (suc fuel) i to txs =
      let rest = delete_range fuel (i + out_plus_one) to (st.delete txs i) in
      if ltb i to then rest else txs

  -- `rollbackTo`
  unfoldable pub rollback_to : PoolState → PoolState → PoolState
  unfolding get_next_index delete_range
  rollback_to s other =
      if ltb (get_next_index other) (get_next_index s)
      then record s {
        tree = st.rollback s.tree (get_next_index other);
        txs = delete_range (get_next_index s) (get_next_index other) (get_next_index s) s.txs;
      }
      else s

  -- `wipe`, less the map of job ids
  unfoldable pub wipe : PoolState → PoolState
  unfolding get_next_index delete_range Nullifiers.clear
  wipe s = record {
    tree = st.wipe s.tree;
    txs = delete_range (get_next_index s) 0 (get_next_index s) s.txs;
    nullifiers = Nullifiers.clear r s.nullifiers;
  }

  -- `clearOptimisticState` of pool/BasePool.ts, on the optimistic and the confirmed state
  unfoldable pub clear_optimistic_state : PoolState → PoolState → PoolState
  unfolding rollback_to Nullifiers.clear
  clear_optimistic_state optimistic confirmed = record (rollback_to optimistic confirmed) {
    nullifiers = Nullifiers.clear r (rollback_to optimistic confirmed).nullifiers;
  }

  -- The loop of `getTransactions`: at most `limit` stored transactions from `offset` on, and the
  -- offset of the last round.
  unfoldable pub collect : PoolState → ℕ → ℕ → ℕ → List Text × ℕ
  unfolding get_db_tx
  collect s offset zero last = ([], last)
  collect s offset (suc limit) last = elim (get_db_tx s offset) [
    | none ↦ ([], offset)
    | some tx ↦ let (txs, next) = collect s (offset + out_plus_one) limit offset in (tx ∷ txs, next)
  ]

  -- `getTransactions`
  unfoldable pub get_transactions : PoolState → ℕ → ℕ → List Text × ℕ
  unfolding collect
  get_transactions s limit offset =
      let rounded = offset / out_plus_one * out_plus_one in collect s rounded limit rounded
