-- ===== src/Pool/Relay.antt =====
-- zp-relayer/pool/RelayPool.ts: the pool of a relayer whose state is kept by an indexer.
pub mod Accepts
use zeropool_relayer.Base.{ℤ, pos, ◌+ℤ◌, ℕ, Bool, Text, codes, Option, Outcome, ok, ◌>>=◌, ◌>>◌}
use zeropool_relayer.Memo.{get_tx_data_prover_v2}
use zeropool_relayer.Numerals.{Numerals}
use zeropool_relayer.Pool.Amounts.{PoolConfig, check_party}
use zeropool_relayer.Pool.Types.{
  PoolTx, Services, OptionalChecks, get_tx_proof_field, root, nullifier, delta,
}
use zeropool_relayer.State.Services.{RedisSet}
use zeropool_relayer.State.Nullifiers
use zeropool_relayer.Validation.{
  check_assertion, check_memo_prefix_prover_v2, check_address_eq, check_pool_id, check_root_indexer,
  check_nullifier, check_nullifier_contract, check_transfer_index, check_proof,
}

-- The indexer: the `optimisticDeltaIndex` of `/info`, and `/root` at an index.
pub record Indexer : Type 0 where
  pub info : Outcome ℤ
  pub root : ℤ → Outcome Text

module _ (num : Numerals) (r : RedisSet) (w : Services) (ix : Indexer) (c : PoolConfig)
    (mock : Text) where
  -- `validateTx`, with the nullifiers of the optimistic state
  unfoldable pub validate_tx : r.Members → OptionalChecks → PoolTx → Outcome (Unit {0})
  unfolding check_memo_prefix_prover_v2 get_tx_data_prover_v2 get_tx_proof_field check_address_eq
      check_pool_id check_root_indexer check_nullifier check_nullifier_contract check_transfer_index
      check_proof check_party Nullifiers.is_in_set
  validate_tx optimistic o tx = do
    check_assertion (ok (check_memo_prefix_prover_v2 tx.memo tx.tx_type))
    data_v2 ← get_tx_data_prover_v2 (w.buffer_from_hex tx.memo) tx.tx_type
    proof_root ← get_tx_proof_field tx.proof root
    proof_nullifier ← get_tx_proof_field tx.proof nullifier
    delta_text ← get_tx_proof_field tx.proof delta
    let d = w.parse_delta delta_text
    optimistic_index ← ix.info
    check_assertion (ok (check_address_eq (w.bytes_to_hex data_v2.proxy_address) c.own_address))
    check_assertion (ok (check_pool_id d.pool_id c.pool_id))
    check_assertion (check_root_indexer (ix.root d.transfer_index) proof_root)
    check_assertion (ok (check_nullifier (Nullifiers.is_in_set r optimistic proof_nullifier)))
    is_set ← w.contract_nullifier proof_nullifier
    check_assertion (ok (check_nullifier_contract is_set))
    check_assertion (ok (check_transfer_index optimistic_index d.transfer_index))
    check_assertion (ok (check_proof (w.verify_proof tx.proof.proof tx.proof.inputs)))
    check_party num w c o tx mock proof_nullifier d
        (pos data_v2.transact_fee +ℤ pos data_v2.tree_update_fee) data_v2.extra
