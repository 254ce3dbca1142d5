-- ===== src/Workers.antt =====
-- zp-relayer/workers/poolTxWorker.ts and sentTxWorker.ts, the job states of queue/poolTxQueue.ts and
-- `withLoop` of utils/helpers.ts. The mutex that the workers share makes each run one step.
pub mod Send
pub mod Check
pub mod Loop
pub mod DefaultPool
use zeropool_relayer.Base.{
  ℕ, zero, suc, Bool, true, false, ◌&&◌, ◌||◌, String, Text, List, [], ◌∷◌, ◌++◌, length, map,
  Option, none, some, Failure, Outcome, ok, throws, error, ◌>>=◌, if◌then◌else◌,
}
use zeropool_relayer.Gas.{GasPriceValue}
use zeropool_relayer.Pool.Types.{PoolTx, ProcessResult}
use zeropool_relayer.TxManager.{
  TransactionConfig, empty_config, EvmTxManager, EvmTxManagerConfig, SendTx, SendAttempt, Prepared,
  Resent, SendError, insufficient_balance, nonce_error, gas_price_error, Receipt, TxInfo,
  prepare_tx, send_failure, resend_tx, confirm_tx,
}
use zeropool_relayer.TxManager.Errors.{is_insufficient_balance_error}

-- `JobState`
pub data JobState : Type 0 where
  waiting sent completed reverted failed : JobState

-- A job of the pool queue: its payload and the reason of its failure.
pub record PoolJob : Type 0 where
  pub tx : PoolTx
  pub state : JobState
  pub tx_hash : Option Text
  pub failed_reason : Option Failure

-- `SentTxPayload`: as the worker holds it, with the attempts that `job.update` last saved
pub record SentJob : Type 0 where
  pub process_result : ProcessResult
  pub prev_attempts : List SendAttempt
  pub saved_attempts : List SendAttempt

-- What the workers call of a pool. A build and a send may change the pool and then throw. `onFailed` is two functions: what it does to the pool, and to the
-- job, which the base pool leaves and the relay pool marks.
pub record Pool (P : Type 0) : Type 0 where
  pub validate_tx : P → PoolTx → Outcome (Unit {0})
  pub build_tx : P → PoolTx → P × Outcome ProcessResult
  pub on_send : P → ProcessResult → Text → P × Outcome (Unit {0})
  pub on_confirmed : P → ProcessResult → Text → P
  pub on_failed : P → Text → P
  pub mark_failed : Text → PoolJob → PoolJob

-- The outside of one run: the price source, the signer, the node's answer to a raw transaction (an
-- error, or none) and its receipts.
pub record Env : Type 0 where
  pub fetched : Outcome GasPriceValue
  pub sign : TransactionConfig → Outcome (Text × Text)
  pub answer : Text → Option Text
  pub receipt : Text → Outcome (Option Receipt)

-- What a run of the pool worker changes.
pub record World (P : Type 0) : Type 0 where
  pub pool : P
  pub manager : EvmTxManager
  pub sent_queue : List SentJob
  pub paused : Bool

-- the request that the worker sends to `prepareTx`
abbrev pub first_request : Text → Text → SendTx
first_request pool_address calldata = record {
  tx_desc = record empty_config {
    to = some pool_address;
    value = some 0;
    calldata = some calldata;
  };
  extra_data = some (record empty_config { gas = some 2000000 });
  options = record { is_resend = false; should_update_gas_price = false };
}

-- The queues are paused for a failed send that lacks funds, where the attempt has a gas price.
unfoldable pub lacks_funds : SendAttempt → Option Text → Bool
unfolding is_insufficient_balance_error
lacks_funds a none = false
lacks_funds a (some e) = elim a.extra_data.gas_price [
  | none ↦ false
  | some p ↦ is_insufficient_balance_error e
]

module _ {P : Type 0} (ops : Pool P) (c : EvmTxManagerConfig) (pool_address : Text) where
  -- The end of `poolTxWorkerProcessor`, after `prepareTx`: a failed send only counts as one that the
  -- other worker repeats. Where `onSend` throws, the job is neither updated nor handed on.
  unfoldable pub after_prepare :
      Env → World P → PoolJob → ProcessResult → Prepared → (World P × PoolJob) × Outcome (Unit {0})
  unfolding lacks_funds send_failure
  after_prepare env w job result p =
      let tx_hash = p.attempt.tx_hash in
      let (pool, told) = ops.on_send w.pool result tx_hash in
      let paused =
        w.paused || lacks_funds p.attempt (send_failure (env.answer p.raw_transaction)) in
      elim told [
        | throws e ↦ ((record w { pool = pool; paused = paused }, job), throws e)
        | ok u ↦ (
          (
            record w {
              pool = pool;
              sent_queue =
                  w.sent_queue
                  ++ (record {
                    process_result = result;
                    prev_attempts = p.attempt ∷ [];
                    saved_attempts = p.attempt ∷ [];
                  }
                      ∷ []);
              paused = paused;
            },
            record job { state = sent; tx_hash = some tx_hash },
          ),
          ok tt,
        )
      ]

  -- the part after the `try` block
  unfoldable pub send_job :
      Env → World P → PoolJob → ProcessResult → (World P × PoolJob) × Outcome (Unit {0})
  unfolding prepare_tx after_prepare
  send_job env w job result =
      let (manager, prepared) =
        prepare_tx env.sign c env.fetched w.manager (first_request pool_address result.calldata) in
      let w' = record w { manager = manager } in
      elim prepared [ ok p ↦ after_prepare env w' job result p | throws e ↦ ((w', job), throws e) ]

  -- the `catch` block
  abbrev pub fail_job : Failure → PoolJob → PoolJob
  fail_job e job = record job { state = failed; failed_reason = some e }

  -- `poolTxWorkerProcessor`
  unfoldable pub pool_tx_worker_processor :
      Env → World P → PoolJob → (World P × PoolJob) × Outcome (Unit {0})
  unfolding send_job
  pool_tx_worker_processor env w job = elim (ops.validate_tx w.pool job.tx) [
    | throws e ↦ ((w, fail_job e job), throws e)
    | ok u ↦
        let (pool, built) = ops.build_tx w.pool job.tx in
        let w' = record w { pool = pool } in
        elim built [
          | throws e ↦ ((w', fail_job e job), throws e)
          | ok result ↦ send_job env w' job result
        ]
  ]

-- What a run of the sent worker changes; the pool job may be gone from its queue.
pub record Checked (P : Type 0) : Type 0 where
  pub pool : P
  pub manager : EvmTxManager
  pub job : SentJob
  pub pool_job : Option PoolJob

-- `RECHECK_ERROR`
abbrev pub recheck : Failure
recheck = error "Waiting for next check"

-- The attempts after `resendTx`: `push`, and `pop` after a lack of funds.
unfoldable pub attempts_after : List SendAttempt → SendAttempt → Option SendError → List SendAttempt
attempts_after attempts a none = attempts ++ (a ∷ [])
attempts_after attempts a (some insufficient_balance) = attempts
attempts_after attempts a (some nonce_error) = attempts ++ (a ∷ [])
attempts_after attempts a (some gas_price_error) = attempts ++ (a ∷ [])

-- `job.update` runs after a re-send without an error.
unfoldable pub saved_after : SentJob → SendAttempt → Option SendError → List SendAttempt
unfolding attempts_after
saved_after job a none = attempts_after job.prev_attempts a none
saved_after job a (some e) = job.saved_attempts

-- `updatePoolJobState`
unfoldable pub complete_job : Text → PoolJob → PoolJob
complete_job tx_hash job = record job { state = completed; tx_hash = some tx_hash }

abbrev pub job_map : (PoolJob → PoolJob) → Option PoolJob → Option PoolJob
job_map f none = none
job_map f (some j) = some (f j)

module _ {P : Type 0} (ops : Pool P) (c : EvmTxManagerConfig) where
  -- the branch without a mined transaction
  unfoldable pub resend_job : Env → Checked P → Checked P × Outcome (Unit {0})
  unfolding resend_tx attempts_after saved_after
  resend_job env w =
      let (manager, resent) =
        resend_tx env.sign c env.fetched env.answer w.manager w.job.prev_attempts in
      elim resent [
        | throws e ↦ (record w { manager = manager }, throws e)
        | ok r ↦ (
          record w {
            manager = manager;
            job = record w.job {
              prev_attempts = attempts_after w.job.prev_attempts r.attempt r.error;
              saved_attempts = saved_after w.job r.attempt r.error;
            };
          },
          throws recheck,
        )
      ]

  -- the branch with one
  unfoldable pub finish_job : Checked P → TxInfo → Checked P
  unfolding complete_job
  finish_job w info =
      if info.success
      then record w {
        pool = ops.on_confirmed w.pool w.job.process_result info.tx_hash;
        pool_job = job_map (complete_job info.tx_hash) w.pool_job;
      }
      else record w {
        pool = ops.on_failed w.pool info.tx_hash;
        pool_job = job_map (ops.mark_failed info.tx_hash) w.pool_job;
      }

  -- `sentTxWorkerProcessor`
  unfoldable pub sent_tx_worker_processor : Env → Checked P → Checked P × Outcome (Unit {0})
  unfolding confirm_tx resend_job finish_job
  sent_tx_worker_processor env w =
      elim (confirm_tx env.receipt (map (λ a. a.tx_hash) w.job.prev_attempts)) [
        | throws e ↦ (w, throws e)
        | ok (tx, true) ↦ (w, throws recheck)
        | ok (some info, false) ↦ (finish_job w info, ok tt)
        | ok (none, false) ↦ resend_job env w
      ]

-- `withLoop`: the first run that returns ends the loop; `fuel` bounds the rounds.
unfoldable pub with_loop {ℓ} :
    {S : Type ℓ} → (ℕ → S → S × Outcome (Unit {0})) → ℕ → ℕ → S → S × Bool
with_loop f zero i s = (s, false)
with_loop f (suc fuel) i s =
    let (s', r) = f i s in elim r [ ok u ↦ (s', true) | throws e ↦ with_loop f fuel (suc i) s' ]
