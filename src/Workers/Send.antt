-- ===== src/Workers/Send.antt =====
-- What a run of the pool worker leaves: a job that is sent, recorded by the pool and handed to the other
-- worker, or one of four failures, and what each has changed by then.
use zeropool_relayer.Base.{
  ◌≡◌, refl, ◌⊎◌, inl, inr, Text, [], ◌∷◌, ◌++◌, some, Failure, Outcome, ok, throws, Outcome-cases,
}
use zeropool_relayer.Pool.Types.{ProcessResult}
use zeropool_relayer.TxManager.{EvmTxManagerConfig, Prepared, prepare_tx}
use zeropool_relayer.Workers.{
  sent, PoolJob, Pool, Env, World, first_request, fail_job, after_prepare, send_job,
  pool_tx_worker_processor,
}

module _ {P : Type 0} (ops : Pool P) (c : EvmTxManagerConfig) (pool_address : Text) where
  -- The job is valid and sent: its hash is that of the attempt, the pool has it, and one job with that
  -- attempt is new in the other queue.
  pub record Sends (env : Env) (w : World P) (job : PoolJob) (w' : World P) (job' : PoolJob)
      : Type 0 where
    pub result : ProcessResult
    pub prepared : Prepared
    pub valid : ops.validate_tx w.pool job.tx ≡ ok tt
    pub built : (ops.build_tx w.pool job.tx).1 ≡ ok result
    pub signed :
        (prepare_tx env.sign c env.fetched w.manager (first_request pool_address result.calldata)).1
        ≡ ok prepared
    pub state : job'.state ≡ sent
    pub tx_hash : job'.tx_hash ≡ some prepared.attempt.tx_hash
    pub told :
        (ops.on_send (ops.build_tx w.pool job.tx).0 result prepared.attempt.tx_hash).1 ≡ ok tt
    pub pool :
        w'.pool ≡ (ops.on_send (ops.build_tx w.pool job.tx).0 result prepared.attempt.tx_hash).0
    pub queue :
        w'.sent_queue
        ≡ w.sent_queue
          ++ (record {
            process_result = result;
            prev_attempts = prepared.attempt ∷ [];
            saved_attempts = prepared.attempt ∷ [];
          }
              ∷ [])

  -- A job fails that is not valid, or for which the pool builds no transaction.
  abbrev pub Refused : World P → PoolJob → World P → PoolJob → Failure → Type 0
  Refused w job w' job' e =
      (ops.validate_tx w.pool job.tx ≡ throws e)
      × (w'.pool ≡ w.pool)
      × (job' ≡ fail_job ops c pool_address e job)

  abbrev pub NotBuilt : World P → PoolJob → World P → PoolJob → Failure → Type 0
  NotBuilt w job w' job' e =
      (ops.validate_tx w.pool job.tx ≡ ok tt)
      × ((ops.build_tx w.pool job.tx).1 ≡ throws e)
      × (w'.pool ≡ (ops.build_tx w.pool job.tx).0)
      × (job' ≡ fail_job ops c pool_address e job)

  -- A transaction that cannot be prepared leaves the job, and the pool as the build left it.
  abbrev pub NotPrepared : Env → World P → PoolJob → World P → PoolJob → Failure → Type 0
  NotPrepared env w job w' job' e =
      (result : ProcessResult) × ((ops.build_tx w.pool job.tx).1 ≡ ok result)
      × ((prepare_tx env.sign c env.fetched w.manager
            (first_request pool_address result.calldata)).1
          ≡ throws e)
      × (w'.pool ≡ (ops.build_tx w.pool job.tx).0)
      × (job' ≡ job)

  -- A transaction that is out, but that the pool failed to record, leaves the job, and the pool as far
  -- as `onSend` came.
  abbrev pub NotRecorded : Env → World P → PoolJob → World P → PoolJob → Failure → Type 0
  NotRecorded env w job w' job' e =
      (result : ProcessResult) × (p : Prepared) × ((ops.build_tx w.pool job.tx).1 ≡ ok result)
      × ((prepare_tx env.sign c env.fetched w.manager
            (first_request pool_address result.calldata)).1
          ≡ ok p)
      × ((ops.on_send (ops.build_tx w.pool job.tx).0 result p.attempt.tx_hash).1 ≡ throws e)
      × (w'.pool ≡ (ops.on_send (ops.build_tx w.pool job.tx).0 result p.attempt.tx_hash).0)
      × (job' ≡ job)

  abbrev pub Leaves : Env → World P → PoolJob → (World P × PoolJob) × Outcome (Unit {0}) → Type 0
  Leaves env w job ((w', job'), ok u) = Sends env w job w' job'
  Leaves env w job ((w', job'), throws e) =
      (w'.sent_queue ≡ w.sent_queue)
      × (Refused w job w' job' e
          ⊎ (NotBuilt w job w' job' e
              ⊎ (NotPrepared env w job w' job' e ⊎ NotRecorded env w job w' job' e)))

  Leaves-prepared :
      (env : Env) (w : World P) (job : PoolJob) (result : ProcessResult)
      → ops.validate_tx w.pool job.tx ≡ ok tt
      → (ops.build_tx w.pool job.tx).1 ≡ ok result
      → Leaves env w job (
          send_job ops c pool_address env
            (record w { pool = (ops.build_tx w.pool job.tx).0 })
            job
            result)
  unfolding send_job after_prepare
  Leaves-prepared env w job result v b =
      let prepared =
        prepare_tx env.sign c env.fetched w.manager (first_request pool_address result.calldata) in
      elim (Outcome-cases prepared.1) [
        | inl (p, e) ↦
            elim (Outcome-cases
              (ops.on_send (ops.build_tx w.pool job.tx).0 result p.attempt.tx_hash).1) [
                | inl (u, t) ↦
                    rw (e, send_job, t, after_prepare)
                      (record {
                        result = result;
                        prepared = p;
                        valid = v;
                        built = b;
                        signed = e;
                        state = refl;
                        tx_hash = refl;
                        told = t;
                        pool = refl;
                        queue = refl;
                      })
                | inr (x, t) ↦
                    rw (e, send_job, t, after_prepare)
                      (refl, inr (inr (inr (result, p, b, e, t, refl, refl))))
              ]
        | inr (x, e) ↦ rw (e, send_job) (refl, inr (inr (inl (result, b, e, refl, refl))))
      ]

  -- A run of the pool worker that returns has sent a job that is valid and built, that the pool has
  -- recorded and that is new in the other queue. One that throws leaves the other queue, and either the
  -- job failed since it is not valid or not built, with the pool as before or as the build left it; or
  -- the transaction was not prepared; or it is out but `onSend` threw, and nobody follows it.
  pub pool_tx_worker_processor_lem :
      (env : Env) (w : World P) (job : PoolJob)
      → Leaves env w job (pool_tx_worker_processor ops c pool_address env w job)
  unfolding pool_tx_worker_processor
  pool_tx_worker_processor_lem env w job = elim (Outcome-cases (ops.validate_tx w.pool job.tx)) [
    | inr (x, v) ↦ rw (v, pool_tx_worker_processor) (refl, inl (v, refl, refl))
    | inl (u, v) ↦ elim (Outcome-cases (ops.build_tx w.pool job.tx).1) [
      | inl (result, b) ↦ rw (v, b, pool_tx_worker_processor) (Leaves-prepared env w job result v b)
      | inr (x, b) ↦ rw (v, b, pool_tx_worker_processor) (refl, inr (inl (v, b, refl, refl)))
    ]
  ]
