-- ===== src/Pool/Relay/Accepts.antt =====
-- What a transaction that `RelayPool.validateTx` accepts satisfies.
use zeropool_relayer.Base.{ℤ, pos, ◌+ℤ◌, ◌≤ℤ◌, ◌≡◌, true, false, Text, to_lower_case, ok, >>=-eq-ok}
use zeropool_relayer.Memo.{TxDataProverV2, get_tx_data_prover_v2}
use zeropool_relayer.Numerals.{Numerals}
use zeropool_relayer.Pool.Amounts.{PoolConfig, check_party}
use zeropool_relayer.Pool.Relay.{Indexer, validate_tx}
use zeropool_relayer.Pool.Types.{
  PoolTx, Services, OptionalChecks, get_tx_proof_field, root, nullifier, delta,
}
use zeropool_relayer.State.Nullifiers
use zeropool_relayer.State.Services.{RedisSet}
use zeropool_relayer.Validation.Laws.{
  assertion_passes, assertion_passes_of, check_address_eq_passes, check_nullifier_passes,
  check_nullifier_contract_passes, check_pool_id_passes, check_proof_passes,
  check_root_indexer_passes, check_transfer_index_passes,
}

module _ (num : Numerals) (r : RedisSet) (w : Services) (ix : Indexer) (c : PoolConfig)
    (mock : Text) where
  -- What holds of an accepted transaction.
  pub record Accepted (optimistic : r.Members) (o : OptionalChecks) (tx : PoolTx) : Type 0 where
    pub fields : TxDataProverV2
    pub proof_root : Text
    pub proof_nullifier : Text
    pub delta_text : Text
    pub index : ℤ
    pub parsed : get_tx_data_prover_v2 (w.buffer_from_hex tx.memo) tx.tx_type ≡ ok fields
    pub root_field : get_tx_proof_field tx.proof root ≡ ok proof_root
    pub nullifier_field : get_tx_proof_field tx.proof nullifier ≡ ok proof_nullifier
    pub delta_field : get_tx_proof_field tx.proof delta ≡ ok delta_text
    pub own_proxy :
        to_lower_case (w.bytes_to_hex fields.proxy_address) ≡ to_lower_case c.own_address
    pub same_pool : (w.parse_delta delta_text).pool_id ≡ c.pool_id
    pub known_root : ix.root (w.parse_delta delta_text).transfer_index ≡ ok proof_root
    pub unspent : Nullifiers.is_in_set r optimistic proof_nullifier ≡ false
    pub unspent_in_contract : w.contract_nullifier proof_nullifier ≡ ok (pos 0)
    pub indexed : ix.info ≡ ok index
    pub not_ahead : (w.parse_delta delta_text).transfer_index ≤ℤ index
    pub proved : w.verify_proof tx.proof.proof tx.proof.inputs ≡ true
    pub party :
        check_party num w c o tx mock proof_nullifier
          (w.parse_delta delta_text)
          (pos fields.transact_fee +ℤ pos fields.tree_update_fee)
          fields.extra
        ≡ ok tt

  -- A transaction that `validateTx` lets through has the relayer as its proxy, the pool's id, a root
  -- that the indexer has at its index, an index that the indexer has reached, a verified proof, and a
  -- nullifier that is neither pending here nor spent in the contract; and its amounts have passed.
  pub validate_tx-Accepted :
      (optimistic : r.Members) (o : OptionalChecks) (tx : PoolTx)
      → validate_tx num r w ix c mock optimistic o tx ≡ ok tt
      → Accepted optimistic o tx
  unfolding validate_tx
  validate_tx-Accepted optimistic o tx h0 =
      let (prefix, h1) = assertion_passes _ _ h0 in
      let (fields, parsed, h2) = >>=-eq-ok _ _ h1 in
      let (proof_root, root_field, h3) = >>=-eq-ok _ _ h2 in
      let (proof_nullifier, nullifier_field, h4) = >>=-eq-ok _ _ h3 in
      let (delta_text, delta_field, h5) = >>=-eq-ok _ _ h4 in
      let (index, indexed, h6) = >>=-eq-ok _ _ h5 in
      let (proxy, h7) = assertion_passes _ _ h6 in
      let (pool, h8) = assertion_passes _ _ h7 in
      let (known, h9) = assertion_passes_of _ _ h8 in
      let (unspent, h10) = assertion_passes _ _ h9 in
      let (set, is_set, h11) = >>=-eq-ok _ _ h10 in
      let (zero_set, h12) = assertion_passes _ _ h11 in
      let (behind, h13) = assertion_passes _ _ h12 in
      let (verified, h14) = assertion_passes _ _ h13 in
      record {
        fields = fields;
        proof_root = proof_root;
        proof_nullifier = proof_nullifier;
        delta_text = delta_text;
        index = index;
        parsed = parsed;
        root_field = root_field;
        nullifier_field = nullifier_field;
        delta_field = delta_field;
        own_proxy = check_address_eq_passes _ _ proxy;
        same_pool = check_pool_id_passes _ _ pool;
        known_root = check_root_indexer_passes _ _ known;
        unspent = check_nullifier_passes _ unspent;
        unspent_in_contract = rw (← check_nullifier_contract_passes set zero_set) is_set;
        indexed = indexed;
        not_ahead =
            check_transfer_index_passes index (w.parse_delta delta_text).transfer_index behind;
        proved = check_proof_passes _ verified;
        party = h14;
      }
