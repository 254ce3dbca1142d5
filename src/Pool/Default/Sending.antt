-- ===== src/Pool/Default/Sending.antt =====
-- `onSend` and `onConfirmed` of zp-relayer/pool/DefaultPool.ts, and `onFailed` of
-- zp-relayer/pool/BasePool.ts: how a nullifier moves from the optimistic to the confirmed state.
use zeropool_relayer.Base.{
  ℕ, ◌*◌, ◌≡◌, ◌≢◌, ◌∙◌, Bool, true, false, Text, text_eq_refl, includes, List, [], ◌∷◌, Option,
  none, some, ok, ==_refl,
}
use zeropool_relayer.Helpers.Hex.{build_prefixed_memo}
use zeropool_relayer.Numerals.{Numerals}
use zeropool_relayer.Pool.Amounts.{PoolConfig}
use zeropool_relayer.Pool.Default.{validate_normal_tx}
use zeropool_relayer.Pool.Default.Accepts.{validate_normal_tx-Accepted}
use zeropool_relayer.Pool.Types.{
  PoolTx, Services, OptionalChecks, ProcessResult, get_tx_proof_field, nullifier,
}
use zeropool_relayer.State.Services.{Storage, RedisSet}
use zeropool_relayer.State.Nullifiers
use zeropool_relayer.State.PoolState.{
  PoolState, out_plus_one, update_state, add_tx, get_db_tx, clear_optimistic_state,
}

-- `if (nullifier)`: an absent or empty nullifier is skipped
abbrev pub nullifier_list : Option Text → List Text
nullifier_list none = []
nullifier_list (some []) = []
nullifier_list (some (c ∷ s)) = (c ∷ s) ∷ []

module _ (num : Numerals) (st : Storage) (r : RedisSet) where
  -- `onSend`, on the optimistic state
  unfoldable pub on_send : PoolState st r → ProcessResult → Text → PoolState st r
  unfolding build_prefixed_memo update_state Nullifiers.add
  on_send optimistic p tx_hash =
      let s =
        update_state st r optimistic p.commit_index p.out_commit
          (build_prefixed_memo num p.out_commit tx_hash p.memo) in
      record s { nullifiers = Nullifiers.add r s.nullifiers (nullifier_list p.nullifier) }

  -- `onConfirmed`, less the comparisons that it only logs: the new confirmed and optimistic state
  unfoldable pub on_confirmed :
      PoolState st r → PoolState st r → ProcessResult → Text → PoolState st r × PoolState st r
  unfolding build_prefixed_memo update_state add_tx Nullifiers.add Nullifiers.remove
  on_confirmed state optimistic p tx_hash =
      let prefixed = build_prefixed_memo num p.out_commit tx_hash p.memo in
      let s = update_state st r state p.commit_index p.out_commit prefixed in
      let o = add_tx st r optimistic (p.commit_index * out_plus_one) prefixed in
      (
        record s { nullifiers = Nullifiers.add r s.nullifiers (nullifier_list p.nullifier) },
        record o { nullifiers = Nullifiers.remove r o.nullifiers (nullifier_list p.nullifier) },
      )

  -- `onFailed` of the base pool, which clears the optimistic state
  unfoldable pub on_failed : PoolState st r → PoolState st r → PoolState st r
  unfolding clear_optimistic_state
  on_failed optimistic confirmed = clear_optimistic_state st r optimistic confirmed

  includes_self : (n : Text) → includes (n ∷ []) n ≡ true
  unfolding includes
  includes_self n = rw (text_eq_refl n)

  pending-on_send :
      (optimistic : PoolState st r) (p : ProcessResult) (tx_hash : Text) (c : ℕ) (s : Text)
      → p.nullifier ≡ some (c ∷ s)
      → Nullifiers.is_in_set r (on_send optimistic p tx_hash).nullifiers (c ∷ s) ≡ true
  unfolding on_send
  pending-on_send optimistic p tx_hash c s e = rw (
    e,
    Nullifiers.is_in_set-add r optimistic.nullifiers ((c ∷ s) ∷ []) (c ∷ s),
    includes_self (c ∷ s),
  )

  spent-on_confirmed :
      (state optimistic : PoolState st r) (p : ProcessResult) (tx_hash : Text) (c : ℕ) (s : Text)
      → p.nullifier ≡ some (c ∷ s)
      → let after = on_confirmed state optimistic p tx_hash in
        (Nullifiers.is_in_set r after.0.nullifiers (c ∷ s) ≡ true)
        × (Nullifiers.is_in_set r after.1.nullifiers (c ∷ s) ≡ false)
  unfolding on_confirmed
  spent-on_confirmed state optimistic p tx_hash c s e = (
    rw (
      e,
      Nullifiers.is_in_set-add r state.nullifiers ((c ∷ s) ∷ []) (c ∷ s),
      includes_self (c ∷ s),
    ),
    rw (
      e,
      Nullifiers.is_in_set-remove r optimistic.nullifiers ((c ∷ s) ∷ []) (c ∷ s),
      includes_self (c ∷ s),
    ),
  )

  -- A confirmed transaction has its nullifier in the confirmed state and no longer in the optimistic
  -- one, and both states store it, with its hash, at its index.
  pub on_confirmed_lem :
      (state optimistic : PoolState st r) (p : ProcessResult) (tx_hash : Text) (c : ℕ) (s : Text)
      → p.nullifier ≡ some (c ∷ s)
      → let after = on_confirmed state optimistic p tx_hash in
        (Nullifiers.is_in_set r after.0.nullifiers (c ∷ s) ≡ true)
        × (Nullifiers.is_in_set r after.1.nullifiers (c ∷ s) ≡ false)
        × (get_db_tx st r after.0 (p.commit_index * 128)
            ≡ some (build_prefixed_memo num p.out_commit tx_hash p.memo))
        × (get_db_tx st r after.1 (p.commit_index * 128)
            ≡ some (build_prefixed_memo num p.out_commit tx_hash p.memo))
  unfolding on_confirmed get_db_tx
  on_confirmed_lem state optimistic p tx_hash c s e =
      let (spent, removed) = spent-on_confirmed state optimistic p tx_hash c s e in
      let i = p.commit_index * 128 in
      let memo = build_prefixed_memo num p.out_commit tx_hash p.memo in
      (
        spent,
        removed,
        st.get-add state.txs i i memo ∙ rw (==_refl i),
        st.get-add optimistic.txs i i memo ∙ rw (==_refl i),
      )

  -- Once a transaction is sent, no transaction with its nullifier passes the validation.
  pub no_double_send :
      (w : Services) (c : PoolConfig) (mock : Text) (state optimistic : PoolState st r)
      (p : ProcessResult) (tx_hash : Text) (d : ℕ) (s : Text) (tree_proof : Option Bool)
      (o : OptionalChecks) (tx : PoolTx)
      → p.nullifier ≡ some (d ∷ s)
      → get_tx_proof_field tx.proof nullifier ≡ ok (d ∷ s)
      → validate_normal_tx num st r w c mock state (on_send optimistic p tx_hash) tree_proof o tx
        ≢ ok tt
  no_double_send w c mock state optimistic p tx_hash d s tree_proof o tx e f h =
      let a =
        validate_normal_tx-Accepted num st r w c mock state (on_send optimistic p tx_hash)
          tree_proof o tx h in
      let pending = pending-on_send optimistic p tx_hash d s e in
      cc (a.not_pending, a.nullifier_field, pending)

  -- Once a transaction is confirmed, no transaction with its nullifier passes the validation.
  pub no_double_spend :
      (w : Services) (c : PoolConfig) (mock : Text) (state optimistic : PoolState st r)
      (p : ProcessResult) (tx_hash : Text) (d : ℕ) (s : Text) (tree_proof : Option Bool)
      (o : OptionalChecks) (tx : PoolTx)
      → p.nullifier ≡ some (d ∷ s)
      → get_tx_proof_field tx.proof nullifier ≡ ok (d ∷ s)
      → let after = on_confirmed state optimistic p tx_hash in
        validate_normal_tx num st r w c mock after.0 after.1 tree_proof o tx ≢ ok tt
  no_double_spend w c mock state optimistic p tx_hash d s tree_proof o tx e f h =
      let after = on_confirmed state optimistic p tx_hash in
      let a = validate_normal_tx-Accepted num st r w c mock after.0 after.1 tree_proof o tx h in
      let spent = (spent-on_confirmed state optimistic p tx_hash d s e).0 in
      cc (a.unspent, a.nullifier_field, spent)
