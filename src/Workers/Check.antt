-- ===== src/Workers/Check.antt =====
-- A run of the sent worker: what it keeps of the attempts, and when it ends.
use zeropool_relayer.Base.{
  Bool-cases, ℕ, ◌≡◌, refl, ◌∙◌, inl, inr, true, false, List, [], ◌∷◌, ◌++◌, map, All, All-append,
  Option, none, some, Failure, Outcome, ok, throws, Outcome-cases, length,
}
use zeropool_relayer.TxManager.{
  EvmTxManager, EvmTxManagerConfig, SendAttempt, Resent, SendError, insufficient_balance,
  nonce_error, gas_price_error, TxInfo, confirm_tx, resend_tx, last,
}
use zeropool_relayer.TxManager.Prices.{resend_tx_keeps}
use zeropool_relayer.TxManager.Receipts.{Reports, confirm_tx_lem}
use zeropool_relayer.Workers.{
  Pool, Env, Checked, attempts_after, resend_job, finish_job, job_map, complete_job,
  sent_tx_worker_processor,
}

-- There is an attempt, and all of them have the nonce, so that the chain takes at most one.
abbrev pub ShareNonce : ℕ → List SendAttempt → Type 0
ShareNonce n [] = ⊥
ShareNonce n (a ∷ attempts) = All (λ b. b.extra_data.nonce ≡ some n) (a ∷ attempts)

ShareNonce-append :
    (n : ℕ) (attempts : List SendAttempt) (a : SendAttempt)
    → ShareNonce n attempts
    → a.extra_data.nonce ≡ some n
    → ShareNonce n (attempts ++ (a ∷ []))
ShareNonce-append n [] a h e = absurd h
ShareNonce-append n (b ∷ attempts) a (h, hs) e =
    (h, All-append (λ b. b.extra_data.nonce ≡ some n) attempts (a ∷ []) hs (e, tt))

last-nonce :
    (n : ℕ) (a : SendAttempt) (attempts : List SendAttempt)
    → ShareNonce n (a ∷ attempts)
    → (last a attempts).extra_data.nonce ≡ some n
last-nonce n a [] (h, hs) = h
last-nonce n a (b ∷ attempts) (h, hs) = last-nonce n b attempts hs

ShareNonce-attempts_after :
    (n : ℕ) (attempts : List SendAttempt) (a : SendAttempt) (e : Option SendError)
    → ShareNonce n attempts
    → a.extra_data.nonce ≡ some n
    → ShareNonce n (attempts_after attempts a e)
unfolding attempts_after
ShareNonce-attempts_after n attempts a none h e = ShareNonce-append n attempts a h e
ShareNonce-attempts_after n attempts a (some insufficient_balance) h e = h
ShareNonce-attempts_after n attempts a (some nonce_error) h e = ShareNonce-append n attempts a h e
ShareNonce-attempts_after n attempts a (some gas_price_error) h e =
    ShareNonce-append n attempts a h e

ok_not_throws : {A : Type 0} {a : A} {x : Failure} → ok a ≡ throws x → ⊥
ok_not_throws e = cc

module _ {P : Type 0} (ops : Pool P) (c : EvmTxManagerConfig) where
  nonce-resend_tx :
      (env : Env) (m : EvmTxManager) (n : ℕ) (attempts : List SendAttempt) (r : Resent)
      → ShareNonce n attempts
      → (resend_tx env.sign c env.fetched env.answer m attempts).1 ≡ ok r
      → r.attempt.extra_data.nonce ≡ some n
  nonce-resend_tx env m n [] r h e = absurd h
  nonce-resend_tx env m n (a ∷ attempts) r h e =
      let (same, _, _) = resend_tx_keeps env.sign c env.fetched env.answer m a attempts r e in
      same.nonce ∙ last-nonce n a attempts h

  -- What a run that goes on leaves: the pool and its job, and attempts that share a nonce.
  pub record Waits (n : ℕ) (w w' : Checked P) : Type 0 where
    pub pool : w'.pool ≡ w.pool
    pub pool_job : w'.pool_job ≡ w.pool_job
    pub attempts : ShareNonce n w'.job.prev_attempts

  Waits-resend_job :
      (env : Env) (w : Checked P) (n : ℕ)
      → ShareNonce n w.job.prev_attempts
      → Waits n w (resend_job ops c env w).0
        × ((e : Failure) × ((resend_job ops c env w).1 ≡ throws e))
  unfolding resend_job
  Waits-resend_job env w n h =
      elim (Outcome-cases
        (resend_tx env.sign c env.fetched env.answer w.manager w.job.prev_attempts).1) [
          | inl (r, e) ↦
              rw (e, resend_job)
                (
                  record {
                    pool = refl;
                    pool_job = refl;
                    attempts =
                        ShareNonce-attempts_after n w.job.prev_attempts r.attempt r.error h
                          (nonce-resend_tx env w.manager n w.job.prev_attempts r h e);
                  },
                  (_, refl),
                )
          | inr (x, e) ↦
              rw (e, resend_job) (record { pool = refl; pool_job = refl; attempts = h }, (x, refl))
        ]

  confirmed-finish_job :
      (w : Checked P) (info : TxInfo)
      → info.success ≡ true
      → ((finish_job ops c w info).pool ≡ ops.on_confirmed w.pool w.job.process_result info.tx_hash)
        × ((finish_job ops c w info).pool_job ≡ job_map (complete_job info.tx_hash) w.pool_job)
  unfolding finish_job
  confirmed-finish_job w info s = rw s (refl, refl)

  dropped-finish_job :
      (w : Checked P) (info : TxInfo)
      → info.success ≡ false
      → ((finish_job ops c w info).pool ≡ ops.on_failed w.pool info.tx_hash)
        × ((finish_job ops c w info).pool_job ≡ job_map (ops.mark_failed info.tx_hash) w.pool_job)
  unfolding finish_job
  dropped-finish_job w info s = rw s (refl, refl)

  job-finish_job : (w : Checked P) (info : TxInfo) → (finish_job ops c w info).job ≡ w.job
  unfolding finish_job
  job-finish_job w info = elim (Bool-cases info.success) [ inl e ↦ rw e | inr e ↦ rw e ]

  -- What a run that ends leaves: the pool has confirmed the attempt that is mined, or dropped it
  -- because it failed, and the job says so.
  pub record Ends (env : Env) (w w' : Checked P) : Type 0 where
    pub info : TxInfo
    pub mined :
        Reports env.receipt
          (map (λ a. a.tx_hash) w.job.prev_attempts)
          (length (map (λ a. a.tx_hash) w.job.prev_attempts))
          (some info)
    pub confirmed :
        info.success ≡ true
        → (w'.pool ≡ ops.on_confirmed w.pool w.job.process_result info.tx_hash)
          × (w'.pool_job ≡ job_map (complete_job info.tx_hash) w.pool_job)
    pub dropped :
        info.success ≡ false
        → (w'.pool ≡ ops.on_failed w.pool info.tx_hash)
          × (w'.pool_job ≡ job_map (ops.mark_failed info.tx_hash) w.pool_job)
    pub attempts : w'.job ≡ w.job

  abbrev pub Steps : ℕ → Env → Checked P → Checked P × Outcome (Unit {0}) → Type 0
  Steps n env w (w', ok u) = Ends env w w'
  Steps n env w (w', throws e) = Waits n w w'

  Steps-Waits :
      (n : ℕ) (env : Env) (w : Checked P) (r : Checked P × Outcome (Unit {0})) (x : Failure)
      → Waits n w r.0
      → r.1 ≡ throws x
      → Steps n env w r
  Steps-Waits n env w (w', ok u) x waits e = absurd (ok_not_throws e)
  Steps-Waits n env w (w', throws y) x waits e = waits

  -- Where the attempts of a job share a nonce, a run of the sent worker ends only with a mined attempt,
  -- which the pool then confirms or drops; any other run leaves the pool and its job, and attempts that
  -- share that nonce.
  pub sent_tx_worker_processor_lem :
      (n : ℕ) (env : Env) (w : Checked P)
      → ShareNonce n w.job.prev_attempts
      → Steps n env w (sent_tx_worker_processor ops c env w)
  unfolding sent_tx_worker_processor
  sent_tx_worker_processor_lem n env w h =
      elim (Outcome-cases (confirm_tx env.receipt (map (λ a. a.tx_hash) w.job.prev_attempts))) [
        | inl ((none, false), e) ↦
            (let (waits, (x, again)) = Waits-resend_job env w n h in
              rw (e, sent_tx_worker_processor)
                (Steps-Waits n env w (resend_job ops c env w) x waits again))
        | inl ((some info, false), e) ↦
            rw (e, sent_tx_worker_processor)
              (record {
                info = info;
                mined = (confirm_tx_lem env.receipt _ _ _ e).0;
                confirmed = confirmed-finish_job w info;
                dropped = dropped-finish_job w info;
                attempts = job-finish_job w info;
              })
        | inl ((o, true), e) ↦
            rw (e, sent_tx_worker_processor) (record { pool = refl; pool_job = refl; attempts = h })
        | inr (x, e) ↦
            rw (e, sent_tx_worker_processor) (record { pool = refl; pool_job = refl; attempts = h })
      ]
