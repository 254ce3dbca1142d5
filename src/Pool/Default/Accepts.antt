-- ===== src/Pool/Default/Accepts.antt =====
-- What a transaction that `DefaultPool.validateNormalTx` accepts satisfies.
use zeropool_relayer.Base.{pos, ◌≤ℤ◌, ◌≡◌, Bool, true, false, Text, Option, some, ok, >>=-eq-ok}
use zeropool_relayer.Memo.{TxData, get_tx_data}
use zeropool_relayer.Numerals.{Numerals}
use zeropool_relayer.Pool.Amounts.{PoolConfig, check_party}
use zeropool_relayer.Pool.Default.{root_at, check_tree_proof, validate_normal_tx}
use zeropool_relayer.Pool.Types.{
  PoolTx, Services, OptionalChecks, get_tx_proof_field, root, nullifier, delta,
}
use zeropool_relayer.State.Nullifiers
use zeropool_relayer.State.Services.{Storage, RedisSet}
use zeropool_relayer.State.PoolState.{PoolState, get_next_index}
use zeropool_relayer.Validation.Laws.{
  assertion_passes, check_nullifier_passes, check_pool_id_passes, check_proof_passes,
  check_root_passes, check_transfer_index_passes,
}

module _ (num : Numerals) (st : Storage) (r : RedisSet) (w : Services) (c : PoolConfig)
    (mock : Text) where
  -- What holds of an accepted transaction.
  pub record Accepted (state : PoolState st r) (optimistic : PoolState st r)
      (tree_proof : Option Bool) (o : OptionalChecks) (tx : PoolTx) : Type 0 where
    pub fields : TxData
    pub proof_root : Text
    pub proof_nullifier : Text
    pub delta_text : Text
    pub parsed : get_tx_data (w.buffer_from_hex tx.memo) tx.tx_type ≡ ok fields
    pub root_field : get_tx_proof_field tx.proof root ≡ ok proof_root
    pub nullifier_field : get_tx_proof_field tx.proof nullifier ≡ ok proof_nullifier
    pub delta_field : get_tx_proof_field tx.proof delta ≡ ok delta_text
    pub same_pool : (w.parse_delta delta_text).pool_id ≡ c.pool_id
    pub known_root :
        root_at num st r w c mock optimistic (w.parse_delta delta_text).transfer_index
        ≡ some proof_root
    pub unspent : Nullifiers.is_in_set r state.nullifiers proof_nullifier ≡ false
    pub not_pending : Nullifiers.is_in_set r optimistic.nullifiers proof_nullifier ≡ false
    pub not_ahead :
        (w.parse_delta delta_text).transfer_index ≤ℤ pos (get_next_index st r optimistic)
    pub proved : w.verify_proof tx.proof.proof tx.proof.inputs ≡ true
    pub tree_proved : check_tree_proof tree_proof ≡ ok tt
    pub party :
        check_party num w c o tx mock proof_nullifier
          (w.parse_delta delta_text)
          (pos fields.transact_fee)
          fields.extra
        ≡ ok tt

  -- A transaction that `validateNormalTx` lets through has the pool's id, a root that the optimistic
  -- tree has at its index, an index that the tree has reached, verified proofs, and a nullifier that
  -- neither the confirmed nor the optimistic state holds; and its amounts have passed.
  pub validate_normal_tx-Accepted :
      (state optimistic : PoolState st r) (tree_proof : Option Bool) (o : OptionalChecks)
      (tx : PoolTx)
      → validate_normal_tx num st r w c mock state optimistic tree_proof o tx ≡ ok tt
      → Accepted state optimistic tree_proof o tx
  unfolding validate_normal_tx
  validate_normal_tx-Accepted state optimistic tree_proof o tx h0 =
      let (prefix, h1) = assertion_passes _ _ h0 in
      let (fields, parsed, h2) = >>=-eq-ok _ _ h1 in
      let (proof_root, root_field, h3) = >>=-eq-ok _ _ h2 in
      let (proof_nullifier, nullifier_field, h4) = >>=-eq-ok _ _ h3 in
      let (delta_text, delta_field, h5) = >>=-eq-ok _ _ h4 in
      let (pool, h6) = assertion_passes _ _ h5 in
      let (known, h7) = assertion_passes _ _ h6 in
      let (unspent, h8) = assertion_passes _ _ h7 in
      let (not_pending, h9) = assertion_passes _ _ h8 in
      let (behind, h10) = assertion_passes _ _ h9 in
      let (verified, h11) = assertion_passes _ _ h10 in
      let (unit, tree, h12) = >>=-eq-ok _ _ h11 in
      record {
        fields = fields;
        proof_root = proof_root;
        proof_nullifier = proof_nullifier;
        delta_text = delta_text;
        parsed = parsed;
        root_field = root_field;
        nullifier_field = nullifier_field;
        delta_field = delta_field;
        same_pool = check_pool_id_passes _ _ pool;
        known_root = check_root_passes _ _ known;
        unspent = check_nullifier_passes _ unspent;
        not_pending = check_nullifier_passes _ not_pending;
        not_ahead =
            check_transfer_index_passes (pos (get_next_index st r optimistic))
              (w.parse_delta delta_text).transfer_index behind;
        proved = check_proof_passes _ verified;
        tree_proved = tree;
        party = h12;
      }
