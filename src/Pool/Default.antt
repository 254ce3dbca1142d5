-- ===== src/Pool/Default.antt =====
-- zp-relayer/pool/DefaultPool.ts: the pool that keeps its own state.
pub mod Accepts
pub mod Sending
use zeropool_relayer.Base.{
  ℤ, pos, ◌+ℤ◌, neg, negsuc, ℕ, Bool, Text, Option, none, some, Outcome, ok, throws, error, ◌>>=◌,
  ◌>>◌,
}
use zeropool_relayer.Memo.{get_tx_data}
use zeropool_relayer.Numerals.{Numerals}
use zeropool_relayer.Pool.Amounts.{PoolConfig, check_party}
use zeropool_relayer.Pool.Types.{
  PoolTx, Services, OptionalChecks, get_tx_proof_field, root, nullifier, delta,
}
use zeropool_relayer.State.Services.{Storage, RedisSet}
use zeropool_relayer.State.Nullifiers
use zeropool_relayer.State.PoolState.{PoolState, get_next_index, get_merkle_root_at}
use zeropool_relayer.Validation.{
  check_assertion, check_memo_prefix, check_pool_id, check_root, check_nullifier,
  check_transfer_index, check_proof,
}

-- `if (optionalChecks.treeProof)`
unfoldable pub check_tree_proof : Option Bool → Outcome (Unit {0})
unfolding check_proof
check_tree_proof none = ok tt
check_tree_proof (some verified) = check_assertion (ok (check_proof verified))

module _ (num : Numerals) (st : Storage) (r : RedisSet) (w : Services) (c : PoolConfig)
    (mock : Text) where
  -- `proofIndex.toNumber()` as an index of the tree; at a negative one `getRootAt` throws
  abbrev root_at : PoolState st r → ℤ → Option Text
  root_at s (pos n) = get_merkle_root_at st r s n
  root_at s (negsuc n) = none

  -- `validateNormalTx`, on the confirmed and the optimistic state; `tree_proof` is the verdict on the
  -- tree proof of the optional checks, where there is one
  unfoldable pub validate_normal_tx :
      PoolState st r → PoolState st r → Option Bool → OptionalChecks → PoolTx → Outcome (Unit {0})
  unfolding check_memo_prefix get_tx_data get_tx_proof_field check_pool_id check_root
      check_nullifier check_transfer_index check_proof check_tree_proof check_party
      get_merkle_root_at get_next_index Nullifiers.is_in_set
  validate_normal_tx state optimistic tree_proof o tx = do
    check_assertion (ok (check_memo_prefix tx.memo tx.tx_type))
    tx_data ← get_tx_data (w.buffer_from_hex tx.memo) tx.tx_type
    proof_root ← get_tx_proof_field tx.proof root
    proof_nullifier ← get_tx_proof_field tx.proof nullifier
    delta_text ← get_tx_proof_field tx.proof delta
    let d = w.parse_delta delta_text
    check_assertion (ok (check_pool_id d.pool_id c.pool_id))
    check_assertion (ok (check_root (root_at optimistic d.transfer_index) proof_root))
    check_assertion (ok (check_nullifier (Nullifiers.is_in_set r state.nullifiers proof_nullifier)))
    check_assertion
        (ok (check_nullifier (Nullifiers.is_in_set r optimistic.nullifiers proof_nullifier)))
    check_assertion
        (ok (check_transfer_index (pos (get_next_index st r optimistic)) d.transfer_index))
    check_assertion (ok (check_proof (w.verify_proof tx.proof.proof tx.proof.inputs)))
    check_tree_proof tree_proof
    check_party num w c o tx mock proof_nullifier d (pos tx_data.transact_fee) tx_data.extra
