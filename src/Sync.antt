-- ===== src/Sync.antt =====
-- `addTxToState`, `propagateOptimisticState` and the last confirmed block of zp-relayer/pool/BasePool.ts:
-- how a pool brings its two states up to those of the contract.
pub mod Rounds
pub mod Confirmed
pub mod Propagate
pub mod Outcomes
pub mod Ends
pub mod Ahead
use zeropool_relayer.Base.{
  ℕ, zero, suc, ◌+◌, ◌-◌, ◌*◌, ◌/◌, Bool, true, false, String, Text, codes, starts_with, slice,
  drop, ◌++◌, List, [], ◌∷◌, Option, none, some, Outcome, ok, throws, error, ◌>>=◌, ltb,
  if◌then◌else◌,
}
use zeropool_relayer.Calldata.{fields, fields_v2, ReadTx, read_tx}
use zeropool_relayer.Helpers.Hex.{build_prefixed_memo}
use zeropool_relayer.Helpers.TxTypes.{
  truncate_hex_prefix, truncate_memo_tx_prefix, truncate_memo_tx_prefix_prover_v2,
}
use zeropool_relayer.Numerals.{Numerals}
use zeropool_relayer.State.Services.{Storage, RedisSet}
use zeropool_relayer.State.Nullifiers
use zeropool_relayer.State.PoolState.{
  PoolState, out_plus_one, update_state, get_db_tx, get_next_index,
}

-- The third argument of `addTxToState`: 'optimistic', or 'confirmed' and 'all', which it does not tell
-- apart.
pub data Target : Type 0 where
  optimistic_only both_states : Target

-- What web3 and the node give: `hexToNumber`, `getTxCalldata`, and the values that `decodeParameters`
-- finds for a list of types, by their position.
pub record Chain : Type 0 where
  pub hex_to_number : Text → ℕ
  pub get_tx_calldata : Text → Outcome Text
  pub decode_parameters : List String → Text → Outcome (ℕ → Text)

abbrev pub transact_selector : Text
transact_selector = codes "0xaf989083"

abbrev pub transact_v2_selector : Text
transact_v2_selector = codes "0x5fd28f8c"

abbrev pub direct_deposit_old_selector : Text
direct_deposit_old_selector = codes "0x1dc4cb33"

abbrev pub direct_deposit_selector : Text
direct_deposit_selector = codes "0xe6b14272"

abbrev direct_deposit_types : List String
direct_deposit_types = "uint256[]" ∷ "uint256" ∷ "uint256[8]" ∷ "address" ∷ []

abbrev direct_deposit_old_types : List String
direct_deposit_old_types = "uint256" ∷ "uint256[]" ∷ "uint256" ∷ "uint256[8]" ∷ "uint256[8]" ∷ []

-- `setLastConfirmedTxBlock`, on the block that Redis holds
unfoldable pub set_last_confirmed_tx_block : ℕ → ℕ → ℕ
set_last_confirmed_tx_block block current = if ltb current block then block else current

-- What `addTxToState` reads of a transaction; a direct deposit has no nullifier.
pub record Found : Type 0 where
  pub out_commit : Text
  pub memo : Text
  pub nullifier : Option Text

abbrev found_tx : Outcome ReadTx → Outcome Found
found_tx (ok t) =
    ok (record { out_commit = t.out_commit; memo = t.memo; nullifier = some t.nullifier })
found_tx (throws e) = throws e

module _ (num : Numerals) (chain : Chain) where
  unfoldable pub found_deposit : List String → ℕ → Text → Text → Outcome Found
  unfolding truncate_hex_prefix ◌>>=◌
  found_deposit types place message input = chain.decode_parameters types (drop 10 input) >>= λ res.
      ok (record { out_commit = res place; memo = truncate_hex_prefix message; nullifier = none })

  -- the branches of `addTxToState` on the selector
  unfoldable pub find_tx : Text → Text → Outcome Found
  unfolding starts_with found_deposit read_tx truncate_memo_tx_prefix
      truncate_memo_tx_prefix_prover_v2
  find_tx message input =
      if starts_with direct_deposit_selector input
      then found_deposit direct_deposit_types 1 message input
      else if starts_with direct_deposit_old_selector input
      then found_deposit direct_deposit_old_types 2 message input
      else if starts_with transact_selector input
      then found_tx (read_tx num chain.hex_to_number fields truncate_memo_tx_prefix input)
      else if starts_with transact_v2_selector input
      then found_tx
          (read_tx num chain.hex_to_number fields_v2 truncate_memo_tx_prefix_prover_v2 input)
      else throws (error "Unknown transaction type")

module _ (num : Numerals) where
  -- `hexToNumberString('0x' + tx.slice(0, 64))`
  unfoldable pub stored_commit : (Text → ℕ) → Text → Text
  stored_commit hex_to_number tx = num.to_dec (hex_to_number (codes "0x" ++ slice 0 64 tx))

module _ (st : Storage) (r : RedisSet) where
  -- The mutable parts of a pool that synchronises.
  pub record BasePool : Type 0 where
    pub state : PoolState st r
    pub optimistic : PoolState st r
    pub last_confirmed_tx_block : ℕ

module _ (num : Numerals) (st : Storage) (r : RedisSet) where
  -- The nullifier and the block of a transaction of the users, for the confirmed state.
  unfoldable pub save_nullifier : Target → ℕ → Option Text → BasePool st r → BasePool st r
  unfolding Nullifiers.add set_last_confirmed_tx_block
  save_nullifier optimistic_only block n p = p
  save_nullifier both_states block none p = p
  save_nullifier both_states block (some n) p = record p {
    state = record p.state { nullifiers = Nullifiers.add r p.state.nullifiers (n ∷ []) };
    last_confirmed_tx_block = set_last_confirmed_tx_block block p.last_confirmed_tx_block;
  }

  -- the loop over `states`
  unfoldable pub update_states : Target → ℕ → Text → Text → BasePool st r → BasePool st r
  unfolding update_state
  update_states optimistic_only i commit memo p = record p {
    optimistic = update_state st r p.optimistic i commit memo;
  }
  update_states both_states i commit memo p = record p {
    state = update_state st r p.state i commit memo;
    optimistic = update_state st r p.optimistic i commit memo;
  }

  -- `addTxToState`, for an index of the contract after a transaction, at least 128
  unfoldable pub add_tx_to_state :
      Chain → Text → ℕ → Text → Target → ℕ → BasePool st r → Outcome (BasePool st r)
  unfolding find_tx save_nullifier update_states build_prefixed_memo ◌>>=◌
  add_tx_to_state chain tx_hash new_pool_index message target block p =
      chain.get_tx_calldata tx_hash >>= λ input. find_tx num chain message input >>= λ found. ok (
        update_states target ((new_pool_index - out_plus_one) / out_plus_one) found.out_commit
          (build_prefixed_memo num found.out_commit tx_hash found.memo)
          (save_nullifier target block found.nullifier p))

  -- The loop of `propagateOptimisticState` for `count` indices from i on; an absent transaction and an
  -- empty one stop it.
  unfoldable pub copy_txs :
      (Text → ℕ) → PoolState st r → ℕ → ℕ → PoolState st r → PoolState st r × Outcome (Unit {0})
  unfolding get_db_tx update_state stored_commit
  copy_txs hex_to_number optimistic zero i s = (s, ok tt)
  copy_txs hex_to_number optimistic (suc count) i s =
      elim (get_db_tx st r optimistic (i * out_plus_one)) [
        | none ↦ (s, throws (error "Tx not found, index"))
        | some tx ↦ elim tx [
          | [] ↦ (s, throws (error "Tx not found, index"))
          | c ∷ t ↦
              copy_txs hex_to_number optimistic count (suc i)
                (update_state st r s i (stored_commit num hex_to_number (c ∷ t)) (c ∷ t))
        ]
      ]

  -- `propagateOptimisticState`, on an index that is already divided
  unfoldable pub propagate_to :
      (Text → ℕ) → ℕ → ℕ → BasePool st r → BasePool st r × Outcome (Unit {0})
  unfolding get_next_index copy_txs set_last_confirmed_tx_block
  propagate_to hex_to_number index block p =
      let op_index = get_next_index st r p.optimistic / out_plus_one in
      let state_index = get_next_index st r p.state / out_plus_one in
      let (s, done) =
        copy_txs hex_to_number p.optimistic (index - state_index) state_index p.state in
      if ltb op_index index
      then (p, throws (error "Index is greater than optimistic state index"))
      else elim done [
        | throws e ↦ (record p { state = s }, throws e)
        | ok u ↦ (
          record p {
            state = s;
            last_confirmed_tx_block = set_last_confirmed_tx_block block p.last_confirmed_tx_block;
          },
          ok tt,
        )
      ]

  unfoldable pub propagate_optimistic_state :
      (Text → ℕ) → ℕ → ℕ → BasePool st r → BasePool st r × Outcome (Unit {0})
  unfolding propagate_to
  propagate_optimistic_state hex_to_number pool_index block p =
      propagate_to hex_to_number (pool_index / out_plus_one) block p
