-- ===== src/Pool/Finalizer.antt =====
-- `buildFinalizeTx`, `buildDirectDepositTx`, `onConfirmed` and `fetchCommitment` of
-- zp-relayer/pool/FinalizerPool.ts.
use zeropool_relayer.Base.{
  ℕ, ◌+◌, ◌*◌, ◌≡◌, refl, ◌∙◌, String, Text, codes, List, [], ◌∷◌, ◌++◌, drop, Option, none, some,
  get_elem?, Outcome, ok, throws, error, ◌>>=◌, max, ==_refl,
}
use zeropool_relayer.Deposits.{DirectDeposit}
use zeropool_relayer.Helpers.Hex.{flatten_proof, build_prefixed_memo}
use zeropool_relayer.Numerals.{Numerals}
use zeropool_relayer.Pool.Types.{Proof}
use zeropool_relayer.State.Services.{Storage, RedisSet}
use zeropool_relayer.State.PoolState.{
  PoolState, update_state, add_tx, add_commitment, get_db_tx, get_next_index,
}

-- `WorkerTxType`
pub data WorkerTxType : Type 0 where
  normal direct_deposit finalize : WorkerTxType

-- A value for the encoder of the ABI: a number or an address as a text, or a list of them.
pub data AbiValue : Type 0 where
  one_value : Text → AbiValue
  many_values : List Text → AbiValue

-- web3-eth-abi: the selector of a signature, and the encoding of values with their types
pub record AbiCoder : Type 0 where
  pub encode_function_signature : String → Text
  pub encode_parameters : List String → List AbiValue → Text

-- `ProcessResult` of this pool, whose transactions have no nullifier
pub record FinalizerResult : Type 0 where
  pub calldata : Text
  pub func : String
  pub commit_index : ℕ
  pub out_commit : Text
  pub memo : Text
  pub root : Text

abbrev nonces : List DirectDeposit → List Text
nonces [] = []
nonces (d ∷ ds) = d.nonce ∷ nonces ds

module _ (abi : AbiCoder) (get_tree_proof : Text → Outcome (Proof × ℕ)) where
  -- `buildFinalizeTx`, after the synchronisation; `toString` of an absent root throws in the encoder
  unfoldable pub build_finalize_tx : Text → Outcome FinalizerResult
  unfolding flatten_proof ◌>>=◌
  build_finalize_tx out_commit = get_tree_proof out_commit >>= λ t. elim (get_elem? t.0.inputs 1) [
    | none ↦ throws (error "invalid BigNumberish value")
    | some root_after ↦ ok (record {
      calldata =
          abi.encode_function_signature "proveTreeUpdate(uint256,uint256[8],uint256)"
          ++ drop 2 (
              abi.encode_parameters ("uint256" ∷ "uint256[8]" ∷ "uint256" ∷ []) (
                one_value out_commit
                ∷ many_values (flatten_proof t.0.proof)
                ∷ one_value root_after
                ∷ []));
      func = "proveTreeUpdate(uint256,uint256[8],uint256)";
      commit_index = t.1;
      out_commit = out_commit;
      memo = [];
      root = root_after;
    })
  ]

  -- `buildDirectDepositTx`; its root is only compared in a log, and an absent one is kept as empty
  unfoldable pub build_direct_deposit_tx :
      List DirectDeposit → Proof → Text → Text → Outcome FinalizerResult
  unfolding flatten_proof ◌>>=◌
  build_direct_deposit_tx deposits tx_proof out_commit memo = get_tree_proof out_commit >>= λ t.
      ok (record {
        calldata =
            abi.encode_function_signature
              "appendDirectDeposits(uint256[],uint256,uint256[8],address)"
            ++ drop 2 (
                abi.encode_parameters ("uint256[]" ∷ "uint256" ∷ "uint256[8]" ∷ "address" ∷ []) (
                  many_values (nonces deposits)
                  ∷ one_value out_commit
                  ∷ many_values (flatten_proof tx_proof.proof)
                  ∷ one_value (codes "0x0000000000000000000000000000000000000000")
                  ∷ []));
        func = "appendDirectDeposits(uint256[],uint256,uint256[8],address)";
        commit_index = t.1;
        out_commit = out_commit;
        memo = memo;
        root = elim (get_elem? t.0.inputs 1) [ none ↦ [] | some root ↦ root ];
      })

module _ (num : Numerals) (st : Storage) (r : RedisSet) where
  -- `onConfirmed`, less a comparison that it only logs: the new confirmed and optimistic state. The job
  -- of the transaction may have no id, or be gone from the queue.
  unfoldable pub on_confirmed :
      PoolState st r
      → PoolState st r
      → FinalizerResult
      → Text
      → Option (Option WorkerTxType)
      → PoolState st r × PoolState st r
  unfolding update_state build_prefixed_memo
  on_confirmed state optimistic p tx_hash job =
      let prefixed = build_prefixed_memo num p.out_commit tx_hash p.memo in
      let o = update_state st r optimistic p.commit_index p.out_commit prefixed in
      let s = update_state st r state p.commit_index p.out_commit prefixed in
      elim job [
        | none ↦ (state, o)
        | some found ↦ elim found [
          | none ↦ (state, o)
          | some tx_type ↦ elim tx_type [
            | normal ↦ (state, o)
            | direct_deposit ↦ (state, o)
            | finalize ↦ (s, o)
          ]
        ]
      ]

  -- The stored transaction of a result.
  abbrev pub prefixed_memo : FinalizerResult → Text → Text
  prefixed_memo p tx_hash = build_prefixed_memo num p.out_commit tx_hash p.memo

  -- A confirmed finalization is stored in both states, and both reach the index after it; a confirmed
  -- batch of direct deposits only changes the optimistic state, in the same way, until it is finalized.
  pub finalizer_on_confirmed_lem :
      (state optimistic : PoolState st r) (p : FinalizerResult) (tx_hash : Text)
      → let done = on_confirmed state optimistic p tx_hash (some (some finalize)) in
        let waits = on_confirmed state optimistic p tx_hash (some (some direct_deposit)) in
        (get_db_tx st r done.0 (p.commit_index * 128) ≡ some (prefixed_memo p tx_hash))
        × (get_next_index st r done.0
            ≡ max (get_next_index st r state) (p.commit_index * 128 + 128))
        × (done.1 ≡ waits.1)
        × (waits.0 ≡ state)
        × (get_db_tx st r waits.1 (p.commit_index * 128) ≡ some (prefixed_memo p tx_hash))
        × (get_next_index st r waits.1
            ≡ max (get_next_index st r optimistic) (p.commit_index * 128 + 128))
  unfolding on_confirmed update_state add_tx add_commitment get_db_tx get_next_index
  finalizer_on_confirmed_lem state optimistic p tx_hash =
      let i = p.commit_index * 128 in
      let memo = prefixed_memo p tx_hash in
      (
        st.get-add state.txs i i memo ∙ rw (==_refl i) refl,
        st.add_commitment_next state.tree p.commit_index p.out_commit,
        refl,
        refl,
        st.get-add optimistic.txs i i memo ∙ rw (==_refl i) refl,
        st.add_commitment_next optimistic.tree p.commit_index p.out_commit,
      )
