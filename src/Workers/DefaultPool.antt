-- ===== src/Workers/DefaultPool.antt =====
-- The default pool behind the pool worker: the record of operations that the worker uses, filled with
-- those of zp-relayer/pool/DefaultPool.ts, and what follows for two runs.
use mathlib.Core.Path.{subst}
use zeropool_relayer.Base.{
  false, inl, inr, ℕ, ◌≡◌, ◌≢◌, sym, ◌∙◌, String, Text, ◌∷◌, none, some, get_elem?, Option-cases,
  Failure, Outcome, ok, throws, >>=-eq-ok,
}
use zeropool_relayer.Calldata.{build_normal_tx}
use zeropool_relayer.Numerals.{Numerals}
use zeropool_relayer.Pool.Amounts.{PoolConfig}
use zeropool_relayer.Pool.Default.{validate_normal_tx}
use zeropool_relayer.Pool.Default.Sending
use zeropool_relayer.Pool.Default.Sending.{no_double_send}
use zeropool_relayer.Pool.Types.{
  Proof, PoolTx, Services, OptionalChecks, ProcessResult, get_tx_proof_field, nullifier, out_commit,
  delta,
}
use zeropool_relayer.State.Services.{Storage, RedisSet}
use zeropool_relayer.State.PoolState.{PoolState}
use zeropool_relayer.TxManager.{EvmTxManagerConfig}
use zeropool_relayer.Workers.{Pool, Env, World, PoolJob, pool_tx_worker_processor}
use zeropool_relayer.Workers.Send.{Leaves, pool_tx_worker_processor_lem}

module _ (num : Numerals) (st : Storage) (r : RedisSet) (s : Services) (pc : PoolConfig)
    (mock : Text) (function_signature : String → Text)
    (get_tree_proof : Text → Outcome (Proof × ℕ)) where
  -- The optional checks are empty in the worker.
  abbrev no_checks : OptionalChecks
  no_checks = record { fee = none; screener = false }

  -- The pool, for normal transactions, is its confirmed and its optimistic state.
  unfoldable pub default_pool : Pool (PoolState st r × PoolState st r)
  unfolding validate_normal_tx build_normal_tx Sending.on_send Sending.on_confirmed
      Sending.on_failed
  default_pool = record {
    validate_tx = λ p tx. validate_normal_tx num st r s pc mock p.0 p.1 none no_checks tx;
    build_tx = λ p tx. (p, build_normal_tx num s.parse_delta function_signature get_tree_proof tx);
    on_send = λ p result tx_hash. ((p.0, Sending.on_send num st r p.1 result tx_hash), ok tt);
    on_confirmed = λ p result tx_hash. Sending.on_confirmed num st r p.0 p.1 result tx_hash;
    on_failed = λ p tx_hash. (p.0, Sending.on_failed num st r p.1 p.0);
    mark_failed = λ tx_hash job. job;
  }

  nullifier_of :
      {p q : ProcessResult} {n : Text} → ok p ≡ ok q → p.nullifier ≡ some n → q.nullifier ≡ some n
  nullifier_of e h = cc

  ok-injective : {A : Type 0} {x y : A} → ok x ≡ ok y → x ≡ y
  ok-injective e = cc

  throws_ne_ok : {A : Type 0} {f : Failure} {a : A} → throws f ≡ ok a → ⊥
  throws_ne_ok e = cc

  nullifier-build_normal_tx :
      (tx : PoolTx) (p : ProcessResult) (n : Text)
      → build_normal_tx num s.parse_delta function_signature get_tree_proof tx ≡ ok p
      → get_tx_proof_field tx.proof nullifier ≡ ok n
      → p.nullifier ≡ some n
  unfolding build_normal_tx
  nullifier-build_normal_tx tx p n h f =
      let (n', at_n, h1) = >>=-eq-ok (get_tx_proof_field tx.proof nullifier) _ h in
      let (o, at_o, h2) = >>=-eq-ok (get_tx_proof_field tx.proof out_commit) _ h1 in
      let (d, at_d, h3) = >>=-eq-ok (get_tx_proof_field tx.proof delta) _ h2 in
      let (t, at_t, h4) = >>=-eq-ok (get_tree_proof o) _ h3 in
      elim (Option-cases (get_elem? t.0.inputs 1)) [
        | inl e ↦ absurd (throws_ne_ok (rw e at h4))
        | inr (root, e) ↦ nullifier_of (rw e at h4) (rw (ok-injective (sym at_n ∙ f)))
      ]

  module _ (c : EvmTxManagerConfig) (pool_address : Text) where
    valid_of :
        (env : Env) (w : World (PoolState st r × PoolState st r)) (job : PoolJob)
        (result : (World (PoolState st r × PoolState st r) × PoolJob) × Outcome (Unit {0}))
        → Leaves default_pool c pool_address env w job result
        → result.1 ≡ ok tt
        → default_pool.validate_tx w.pool job.tx ≡ ok tt
    valid_of env w job ((w', job'), ok u) l e = l.valid
    valid_of env w job ((w', job'), throws x) l e = absurd (throws_ne_ok e)

    -- Once the pool worker has sent a job with the default pool, the next run throws for every job with
    -- the same nullifier.
    pub worker_no_double_send :
        (env env' : Env) (w w' : World (PoolState st r × PoolState st r)) (job job' next : PoolJob)
        (d : ℕ) (n : Text)
        → pool_tx_worker_processor default_pool c pool_address env w job ≡ ((w', job'), ok tt)
        → get_tx_proof_field job.tx.proof nullifier ≡ ok (d ∷ n)
        → get_tx_proof_field next.tx.proof nullifier ≡ ok (d ∷ n)
        → (pool_tx_worker_processor default_pool c pool_address env' w' next).1 ≢ ok tt
    unfolding default_pool
    worker_no_double_send env env' w w' job job' next d n e f g h =
        let first =
          subst (Leaves default_pool c pool_address env w job) e
            (pool_tx_worker_processor_lem default_pool c pool_address env w job) in
        let valid =
          valid_of env' w' next _
            (pool_tx_worker_processor_lem default_pool c pool_address env' w' next) h in
        let spent = nullifier-build_normal_tx job.tx first.result (d ∷ n) first.built f in
        no_double_send num st r s pc mock w.pool.0 w.pool.1 first.result
          first.prepared.attempt.tx_hash d n none no_checks next.tx spent g (rw first.pool at valid)
