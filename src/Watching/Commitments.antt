-- ===== src/Watching/Commitments.antt =====
-- `processCommitment` and a round of `runWatcher` of zp-relayer/services/commitment-watcher/init.ts,
-- and `fetchCommitment` of zp-relayer/pool/FinalizerPool.ts.
use zeropool_relayer.Base.{
  ℕ, ◌/◌, ◌≡◌, refl, sym, ◌∙◌, Bool, true, false, ◌||◌, Text, codes, text_eq, text_eq_refl,
  text_eq_sound, Option, none, some, Outcome, ok, throws, leb, if◌then◌else◌, Bool-cases,
  Option-cases, inl, inr,
}
use zeropool_relayer.Workers.{JobState, waiting, sent, completed, reverted, failed}

-- `PendingCommitment`, with the end of the grace period as a number
pub record PendingCommitment : Type 0 where
  pub commitment : Text
  pub privileged_prover : Text
  pub fee : Text
  pub timestamp : Text
  pub grace_period_end : ℕ

-- `FinalizeTxPayload`
pub record FinalizeJob : Type 0 where
  pub state : JobState
  pub tx_hash : Option Text
  pub out_commit : Text
  pub privileged_prover : Text
  pub fee : Text
  pub timestamp : Text
  pub grace_period_end : ℕ

-- What the watcher uses of a queue of BullMQ, where a new id gets its job.
pub record JobQueue : Type 1 where
  pub Queue : Type 0
  pub get_job : Queue → Text → Option FinalizeJob
  pub remove : Queue → Text → Queue
  pub add : Queue → Text → FinalizeJob → Queue
  pub get_job-remove :
      (q : Queue) (i j : Text)
      → get_job (remove q i) j ≡ (if text_eq i j then none else get_job q j)
  pub get_job-add :
      (q : Queue) (i j : Text) (x : FinalizeJob)
      → get_job q i ≡ none
      → get_job (add q i x) j ≡ (if text_eq i j then some x else get_job q j)

-- `ZERO_ADDRESS`
abbrev pub zero_address : Text
zero_address = codes "0x0000000000000000000000000000000000000000"

-- `isEligible`, at a time in milliseconds
unfoldable pub is_eligible : Text → ℕ → PendingCommitment → Bool
unfolding text_eq
is_eligible own_address now_ms c =
    text_eq c.privileged_prover zero_address
    || (text_eq c.privileged_prover own_address || leb c.grace_period_end (now_ms / 1000))

-- the payload of a new job
abbrev pub new_job : PendingCommitment → FinalizeJob
new_job c = record {
  state = waiting;
  tx_hash = none;
  out_commit = c.commitment;
  privileged_prover = c.privileged_prover;
  fee = c.fee;
  timestamp = c.timestamp;
  grace_period_end = c.grace_period_end;
}

abbrev pub is_failed : JobState → Bool
is_failed waiting = false
is_failed sent = false
is_failed completed = false
is_failed reverted = false
is_failed failed = true

module _ (jobs : JobQueue) (own_address : Text) where
  -- the part of `processCommitment` after the test: a failed job is removed and added again
  unfoldable pub submit : PendingCommitment → jobs.Queue → jobs.Queue
  submit c q = elim (jobs.get_job q c.commitment) [
    | none ↦ jobs.add q c.commitment (new_job c)
    | some job ↦
        if is_failed job.state
        then jobs.add (jobs.remove q c.commitment) c.commitment (new_job c)
        else q
  ]

  unfoldable pub process_commitment : ℕ → PendingCommitment → jobs.Queue → jobs.Queue
  unfolding is_eligible submit
  process_commitment now_ms c q = if is_eligible own_address now_ms c then submit c q else q

  -- A round of `runWatcher`; `fetchCommitment` gives none where the call fails.
  unfoldable pub watch_commitment : ℕ → Outcome PendingCommitment → jobs.Queue → jobs.Queue
  unfolding process_commitment
  watch_commitment now_ms (ok c) q = process_commitment now_ms c q
  watch_commitment now_ms (throws e) q = q

  -- What a round makes of the job of its commitment.
  abbrev pub job_after : Bool → PendingCommitment → Option FinalizeJob → Option FinalizeJob
  job_after false c job = job
  job_after true c none = some (new_job c)
  job_after true c (some job) = if is_failed job.state then some (new_job c) else some job

  removed : (q : jobs.Queue) (i : Text) → jobs.get_job (jobs.remove q i) i ≡ none
  removed q i = jobs.get_job-remove q i i ∙ rw (text_eq_refl i) refl

  submit_same :
      (c : PendingCommitment) (q : jobs.Queue)
      → jobs.get_job (submit c q) c.commitment ≡ job_after true c (jobs.get_job q c.commitment)
  unfolding submit
  submit_same c q = elim (Option-cases (jobs.get_job q c.commitment)) [
    | inl e ↦
        rw (e, submit)
          (jobs.get_job-add q c.commitment c.commitment (new_job c) e
            ∙ rw (text_eq_refl c.commitment) refl)
    | inr (job, e) ↦ elim (Bool-cases (is_failed job.state)) [
      | inr f ↦ rw (e, submit, f, e) refl
      | inl f ↦
          rw (e, submit, f)
            (jobs.get_job-add (jobs.remove q c.commitment) c.commitment c.commitment (new_job c)
                (removed q c.commitment)
              ∙ rw (text_eq_refl c.commitment) refl)
    ]
  ]

  submit_other :
      (c : PendingCommitment) (q : jobs.Queue) (j : Text)
      → text_eq c.commitment j ≡ false
      → jobs.get_job (submit c q) j ≡ jobs.get_job q j
  unfolding submit
  submit_other c q j differs = elim (Option-cases (jobs.get_job q c.commitment)) [
    | inl e ↦ rw (e, submit) (jobs.get_job-add q c.commitment j (new_job c) e ∙ rw differs refl)
    | inr (job, e) ↦ elim (Bool-cases (is_failed job.state)) [
      | inr f ↦ rw (e, submit, f) refl
      | inl f ↦
          rw (e, submit, f)
            (jobs.get_job-add (jobs.remove q c.commitment) c.commitment j (new_job c)
                (removed q c.commitment)
              ∙ rw differs (jobs.get_job-remove q c.commitment j ∙ rw differs refl))
    ]
  ]

  if_same : {A : Type 0} (b : Bool) (x : A) → (if b then x else x) ≡ x
  if_same true x = refl
  if_same false x = refl

  -- A commitment that the prover may finalize, its own, an unprivileged one, or one past its grace
  -- period, has a waiting job afterwards where it had none or a failed one, and keeps any other job; of
  -- every other commitment the job stays.
  pub process_commitment_lem :
      (now_ms : ℕ) (c : PendingCommitment) (q : jobs.Queue) (j : Text)
      → jobs.get_job (process_commitment now_ms c q) j ≡ (
          if text_eq c.commitment j
          then job_after (is_eligible own_address now_ms c) c (jobs.get_job q j)
          else jobs.get_job q j)
  unfolding process_commitment
  process_commitment_lem now_ms c q j = elim (Bool-cases (is_eligible own_address now_ms c)) [
    | inr e ↦ rw (e, process_commitment) (sym (if_same (text_eq c.commitment j) (jobs.get_job q j)))
    | inl e ↦ elim (Bool-cases (text_eq c.commitment j)) [
      | inl f ↦
          rw (e, process_commitment, ← text_eq_sound c.commitment j f, text_eq_refl c.commitment)
            (submit_same c q)
      | inr f ↦ rw (e, process_commitment, f) (submit_other c q j f)
    ]
  ]
