-- ===== src/Cache/Relay.antt =====
-- `onSend`, `onConfirmed`, `onFailed`, `cacheTxLocally` and `assumeNextPendingTxIndex` of
-- zp-relayer/pool/RelayPool.ts.
pub mod Finds
use zeropool_relayer.Base.{
  pos, ℕ, ◌+◌, ◌*◌, ◌^◌, ◌<◌, ◌≡◌, refl, ap, ◌∙◌, false, Text, text_eq, Bool-cases, inl, inr, ◌++◌,
  slice, length, [], ◌∷◌, Option, none, some, get_elem?, Outcome, ok, throws, ◌>>=◌, if◌then◌else◌,
  drop-append_length, take-append_length, arith,
}
use zeropool_relayer.Calldata.RoundTrip.{num_to_hex-IsDigit}
use zeropool_relayer.Cache.{add, remove, entry_text}
use zeropool_relayer.Cache.Hash.{RedisHash}
use zeropool_relayer.Cache.Laws.{ParsesHex}
use zeropool_relayer.Cache.Observer.{indexer_commitment}
use zeropool_relayer.Helpers.Hex.{num_to_hex, build_prefixed_memo, tx_to_v2_format}
use zeropool_relayer.Helpers.Hex.Laws.{
  num_to_hex_lem, length-num_to_hex_pos, tx_to_v2_format-build_prefixed_memo,
}
use zeropool_relayer.Helpers.TxTypes.{truncate_hex_prefix}
use zeropool_relayer.Numerals.{Numerals}
use zeropool_relayer.Pool.Default.Sending.{nullifier_list}
use zeropool_relayer.Pool.Types.{ProcessResult}
use zeropool_relayer.State.Services.{Storage, RedisSet}
use zeropool_relayer.State.Nullifiers
use zeropool_relayer.State.PoolState.{PoolState, out_plus_one, clear_optimistic_state}
use zeropool_relayer.Workers.{PoolJob, reverted, complete_job, job_map}

module _ (num : Numerals) where
  -- What the observer reads as the commitment in the indexer's format of a transaction is the number of
  -- that commitment in decimal digits: one character of prefix, a hash of 64 digits and a commitment
  -- that fits 64.
  pub indexer_commitment-cached :
      (parse_hex : Text → ℕ) (prefix : ℕ) (commit tx_hash memo : Text)
      → ParsesHex parse_hex
      → num.of_dec commit < 16 ^ 64
      → length (truncate_hex_prefix tx_hash) ≡ 64
      → indexer_commitment num parse_hex
          (tx_to_v2_format (prefix ∷ []) (build_prefixed_memo num commit tx_hash memo))
        ≡ num.to_dec (num.of_dec commit)
  unfolding indexer_commitment
  indexer_commitment-cached parse_hex prefix commit tx_hash memo parses small full =
      let hash = truncate_hex_prefix tx_hash in
      let digits = num_to_hex num (pos (num.of_dec commit)) 64 in
      let width : length digits ≡ 64 = length-num_to_hex_pos num (num.of_dec commit) 63 small in
      let cut : slice 65 129 ((prefix ∷ []) ++ (hash ++ (digits ++ memo))) ≡ digits =
        rw (drop-append_length 64 hash (digits ++ memo) full)
          (take-append_length 64 digits memo width) in
      ap (indexer_commitment num parse_hex)
        (tx_to_v2_format-build_prefixed_memo num (prefix ∷ []) commit tx_hash memo small full)
      ∙ ap num.to_dec (
          ap parse_hex cut
          ∙ parses digits (num_to_hex-IsDigit num (num.of_dec commit) 64)
          ∙ (num_to_hex_lem num (pos (num.of_dec commit)) 63 small (omega arith)).1)

module _ (num : Numerals) (st : Storage) (r : RedisSet) (h : RedisHash) where
  -- The mutable parts of the relay pool.
  pub record RelayPool : Type 0 where
    pub state : PoolState st r
    pub optimistic : PoolState st r
    pub tx_store : h.Hash

  -- `cacheTxLocally`
  unfoldable pub cache_tx_locally : h.Hash → Text → Text → Text → ℕ → h.Hash
  unfolding add build_prefixed_memo
  cache_tx_locally s commit tx_hash memo timestamp =
      add num h s commit (build_prefixed_memo num commit tx_hash memo) timestamp

  -- `onSend`, up to the start of the observer, whose first index it gives; `delta_index` is the answer
  -- of the indexer and `now` the clock
  unfoldable pub on_send : Outcome ℕ → ℕ → RelayPool → ProcessResult → Text → RelayPool × Outcome ℕ
  unfolding Nullifiers.add cache_tx_locally
  on_send delta_index now p result tx_hash =
      let o = record p.optimistic {
        nullifiers = Nullifiers.add r p.optimistic.nullifiers (nullifier_list result.nullifier);
      } in
      elim delta_index [
        | throws e ↦ (record p { optimistic = o }, throws e)
        | ok index ↦ (
          record p {
            optimistic = o;
            tx_store = cache_tx_locally p.tx_store result.out_commit tx_hash result.memo now;
          },
          ok index,
        )
      ]

  -- `onConfirmed`, on the pool job, which may be gone
  unfoldable pub on_confirmed : Text → Option PoolJob → Option PoolJob
  unfolding complete_job
  on_confirmed tx_hash job = job_map (complete_job tx_hash) job

  -- the part of `onFailed` on the job
  unfoldable pub revert_job : Text → PoolJob → PoolJob
  revert_job tx_hash job = record job { state = reverted; tx_hash = some tx_hash }

  -- the cache after `onFailed`: the third input is the commitment
  unfoldable pub drop_failed : Option PoolJob → h.Hash → h.Hash
  unfolding remove
  drop_failed none s = s
  drop_failed (some job) s = elim (get_elem? job.tx.proof.inputs 2) [
    | none ↦ s
    | some commit ↦ remove h s commit
  ]

  -- `onFailed`: that of the base pool, then the job and the cache
  unfoldable pub on_failed : Text → Option PoolJob → RelayPool → RelayPool × Option PoolJob
  unfolding clear_optimistic_state drop_failed revert_job
  on_failed tx_hash job p = (
    record p {
      optimistic = clear_optimistic_state st r p.optimistic p.state;
      tx_store = drop_failed job p.tx_store;
    },
    job_map (revert_job tx_hash) job,
  )

  -- `assumeNextPendingTxIndex`
  unfoldable pub assume_next_pending_tx_index : Outcome ℕ → h.Hash → Outcome ℕ
  unfolding ◌>>=◌
  assume_next_pending_tx_index optimistic_delta_index s =
      optimistic_delta_index >>= λ index. ok (index + length (h.hgetall s) * out_plus_one)

  hget-drop_failed :
      (job : PoolJob) (s : h.Hash) (sent commit : Text)
      → get_elem? job.tx.proof.inputs 2 ≡ some sent
      → h.hget (drop_failed (some job) s) commit
        ≡ (if text_eq sent commit then none else h.hget s commit)
  unfolding drop_failed remove
  hget-drop_failed job s sent commit e = rw (e, drop_failed) (h.hget-hdel s sent commit)

  hget-cache_tx_locally :
      (s : h.Hash) (sent tx_hash memo : Text) (now : ℕ) (commit : Text)
      → (if text_eq sent commit
          then none
          else h.hget (cache_tx_locally s sent tx_hash memo now) commit)
        ≡ (if text_eq sent commit then none else h.hget s commit)
  unfolding cache_tx_locally add
  hget-cache_tx_locally s sent tx_hash memo now commit = elim (Bool-cases (text_eq sent commit)) [
    | inl e ↦ rw e refl
    | inr e ↦
        rw
          (
            e,
            h.hget-hset s sent (entry_text num (build_prefixed_memo num sent tx_hash memo) now)
                commit,
            e,
          )
          refl
  ]

  -- A transaction that is sent and then fails leaves no trace in the cache: its commitment is gone, and
  -- every other one reads as before it was sent. No nullifier is pending any more, and the job is
  -- reverted, with the hash; for a job whose third input is the commitment.
  pub on_send-on_failed :
      (index now : ℕ) (p : RelayPool) (result : ProcessResult) (job : PoolJob)
      (tx_hash failed_hash commit nullifier : Text)
      → get_elem? job.tx.proof.inputs 2 ≡ some result.out_commit
      → let after = on_failed failed_hash (some job) (on_send (ok index) now p result tx_hash).0 in
        (h.hget after.0.tx_store commit
          ≡ (if text_eq result.out_commit commit then none else h.hget p.tx_store commit))
        × (Nullifiers.is_in_set r after.0.optimistic.nullifiers nullifier ≡ false)
        × (after.1 ≡ some (record job { state = reverted; tx_hash = some failed_hash }))
  unfolding on_failed on_send drop_failed remove Nullifiers.is_in_set clear_optimistic_state
      Nullifiers.clear revert_job
  on_send-on_failed index now p result job tx_hash failed_hash commit nullifier e = (
    hget-drop_failed job _ result.out_commit commit e
        ∙ hget-cache_tx_locally p.tx_store result.out_commit tx_hash result.memo now commit,
    r.sismember-del _ nullifier,
    refl,
  )
