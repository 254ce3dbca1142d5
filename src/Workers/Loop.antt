-- ===== src/Workers/Loop.antt =====
-- The loop around the sent worker: it ends with the first run that returns.
use zeropool_relayer.Base.{
  ℕ, zero, suc, ◌+◌, ◌<◌, ◌≡◌, refl, inl, inr, true, false, Text, List, [], ◌∷◌, ◌++◌, map, Option,
  none, some, Outcome, ok, Outcome-cases, arith, Bool-cases, Option-cases,
}
use mathlib.Core.Path.{subst}
use zeropool_relayer.TxManager.{
  EvmTxManagerConfig, SendAttempt, SendError, insufficient_balance, nonce_error, gas_price_error,
  Receipt, TxInfo, mined_info, resend_tx, confirm_tx,
}
use zeropool_relayer.TxManager.Receipts.{confirm_tx_lem, confirm_tx_total}
use zeropool_relayer.Workers.{
  Pool, Env, Checked, attempts_after, resend_job, finish_job, sent_tx_worker_processor, with_loop,
}

module _ {S : Type 0} (f : ℕ → S → S × Outcome (Unit {0})) (Inv : S → Type 0)
    (keeps : (i : ℕ) (s : S) → Inv s → Inv (f i s).0) where
  -- Where an invariant makes round `i + k` return and the fuel reaches it, the loop ends.
  with_loop_ends :
      (k fuel i : ℕ) (s : S)
      → k < fuel
      → Inv s
      → ((t : S) → Inv t → (f (i + k) t).1 ≡ ok tt)
      → (with_loop f fuel i s).1 ≡ true
  unfolding with_loop
  with_loop_ends k zero i s h v e = absurd (omega arith)
  with_loop_ends zero (suc fuel) i s h v e =
      let now = subst (λ j. (f j s).1 ≡ ok tt) {y = i} (omega arith) (e s v) in rw (now, with_loop)
  with_loop_ends (suc k) (suc fuel) i s h v e = elim (Outcome-cases (f i s).1) [
    | inl (u, r) ↦ rw (r, with_loop)
    | inr (x, r) ↦
        rw (r, with_loop)
          (with_loop_ends k fuel (suc i) (f i s).0 (omega arith) (keeps i s v)
            λ t w. subst (λ j. (f j t).1 ≡ ok tt) {y = suc i + k} (omega arith) (e t w))
  ]

-- The attempts begin with this one.
abbrev pub Begins : SendAttempt → List SendAttempt → Type 0
Begins a attempts = (rest : List SendAttempt) × (attempts ≡ a ∷ rest)

Begins-attempts_after :
    (a b : SendAttempt) (attempts : List SendAttempt) (e : Option SendError)
    → Begins a attempts
    → Begins a (attempts_after attempts b e)
unfolding attempts_after
Begins-attempts_after a b attempts none (rest, h) = (rest ++ (b ∷ []), rw h)
Begins-attempts_after a b attempts (some insufficient_balance) h = h
Begins-attempts_after a b attempts (some nonce_error) (rest, h) = (rest ++ (b ∷ []), rw h)
Begins-attempts_after a b attempts (some gas_price_error) (rest, h) = (rest ++ (b ∷ []), rw h)

unlike :
    {o : Outcome (Option Receipt)} {r q : Option Receipt} {info : TxInfo}
    → o ≡ ok r
    → o ≡ ok q
    → mined_info r ≡ some info
    → mined_info q ≡ none
    → ⊥
unlike e f g h = cc

module _ {P : Type 0} (ops : Pool P) (c : EvmTxManagerConfig) where
  Begins-resend_job :
      (a : SendAttempt) (env : Env) (w : Checked P)
      → Begins a w.job.prev_attempts
      → Begins a (resend_job ops c env w).0.job.prev_attempts
  unfolding resend_job
  Begins-resend_job a env w h =
      elim (Outcome-cases
        (resend_tx env.sign c env.fetched env.answer w.manager w.job.prev_attempts).1) [
          | inl (r, e) ↦
              rw (e, resend_job) (Begins-attempts_after a r.attempt w.job.prev_attempts r.error h)
          | inr (x, e) ↦ rw (e, resend_job) h
        ]

  Begins-finish_job :
      (a : SendAttempt) (w : Checked P) (info : TxInfo)
      → Begins a w.job.prev_attempts
      → Begins a (finish_job ops c w info).job.prev_attempts
  unfolding finish_job
  Begins-finish_job a w info h = elim (Bool-cases info.success) [
    | inl e ↦ rw (e, finish_job) h
    | inr e ↦ rw (e, finish_job) h
  ]

  -- No run forgets the first attempt.
  Begins-sent_tx_worker_processor :
      (a : SendAttempt) (env : Env) (w : Checked P)
      → Begins a w.job.prev_attempts
      → Begins a (sent_tx_worker_processor ops c env w).0.job.prev_attempts
  unfolding sent_tx_worker_processor
  Begins-sent_tx_worker_processor a env w h =
      elim (Outcome-cases (confirm_tx env.receipt (map (λ b. b.tx_hash) w.job.prev_attempts))) [
        | inl ((none, false), e) ↦ rw (e, sent_tx_worker_processor) (Begins-resend_job a env w h)
        | inl ((some info, false), e) ↦
            rw (e, sent_tx_worker_processor) (Begins-finish_job a w info h)
        | inl ((o, true), e) ↦ rw (e, sent_tx_worker_processor) h
        | inr (x, e) ↦ rw (e, sent_tx_worker_processor) h
      ]

  -- The node answers every request for a receipt, and that for this attempt with a block.
  pub record Confirms (env : Env) (a : SendAttempt) : Type 0 where
    pub answers : (h : Text) → (r : Option Receipt) × (env.receipt h ≡ ok r)
    pub receipt : Option Receipt
    pub info : TxInfo
    pub answer : env.receipt a.tx_hash ≡ ok receipt
    pub mined : mined_info receipt ≡ some info

  mined_not_none :
      (env : Env) (a : SendAttempt) (attempts : List SendAttempt)
      → Confirms env a
      → Begins a attempts
      → confirm_tx env.receipt (map (λ b. b.tx_hash) attempts) ≡ ok (none, false)
      → ⊥
  mined_not_none env a attempts k (rest, h) e =
      let reports =
        (confirm_tx_lem env.receipt (map (λ b. b.tx_hash) (a ∷ rest)) none false (rw h at e)).0 in
      let (receipt, got, unmined) = reports 0 (omega arith) a.tx_hash refl in
      absurd (unlike k.answer got k.mined unmined)

  returns :
      (a : SendAttempt) (env : Env) (w : Checked P)
      → Confirms env a
      → Begins a w.job.prev_attempts
      → (sent_tx_worker_processor ops c env w).1 ≡ ok tt
  unfolding sent_tx_worker_processor
  returns a env w k b =
      let (o, e) =
        confirm_tx_total env.receipt (map (λ b. b.tx_hash) w.job.prev_attempts) k.answers in
      elim (Option-cases o) [
        | inl is_none ↦ absurd (mined_not_none env a w.job.prev_attempts k b (rw is_none at e))
        | inr (info, is_info) ↦ rw (e, is_info, sent_tx_worker_processor)
      ]

  -- The sent worker ends: once there is a round, whichever, in which the node answers every request for a
  -- receipt and that for the attempt that was sent first with a block, the loop around the worker
  -- returns, if it has not before.
  pub sent_tx_worker_ends :
      (envs : ℕ → Env) (k fuel i : ℕ) (a : SendAttempt) (w : Checked P)
      → k < fuel
      → Begins a w.job.prev_attempts
      → Confirms (envs (i + k)) a
      → (with_loop (λ j. sent_tx_worker_processor ops c (envs j)) fuel i w).1 ≡ true
  sent_tx_worker_ends envs k fuel i a w h b confirms =
      with_loop_ends (λ j. sent_tx_worker_processor ops c (envs j))
        (λ t. Begins a t.job.prev_attempts) (λ j t. Begins-sent_tx_worker_processor a (envs j) t) k
        fuel i w h b λ t v. returns a (envs (i + k)) t confirms v
