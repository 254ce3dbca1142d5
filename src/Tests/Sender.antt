-- ===== src/Tests/Sender.antt =====
-- The theorems on the transaction manager and the workers.
use zeropool_relayer.Base.{
  ◌≢◌, ◌+ℤ◌, ◌-ℤ◌, ◌>>=◌, ℕ, suc, ◌*◌, ◌+◌, ◌≡◌, refl, true, false, Text, codes, [], ◌∷◌, List,
  Option, none, some, Outcome, ok, throws, error, arith,
}
use zeropool_relayer.Gas.{GasPriceValue, legacy, add_extra_gas_price}
use zeropool_relayer.Gas.Bounds.{Below, SameKind}
use zeropool_relayer.TxManager.{
  TransactionConfig, empty_config, EvmTxManager, EvmTxManagerConfig, SendTx, SendAttempt, Resent,
  Receipt, TxInfo, requested, resend_tx, get_gas_price_value, priced, confirm_tx, mined_info,
  spread,
}
use zeropool_relayer.TxManager.Nonces.{IsNew, Consecutive, prepare_all, prepare_all_lem}
use zeropool_relayer.TxManager.Prices.{resend_tx_raises}
use zeropool_relayer.TxManager.Receipts.{Reports, confirm_tx_lem}
use zeropool_relayer.Workers.{
  waiting, PoolJob, Pool, Env, World, Checked, first_request, pool_tx_worker_processor,
  sent_tx_worker_processor, with_loop,
}
use zeropool_relayer.Workers.Send.{Leaves, pool_tx_worker_processor_lem}
use zeropool_relayer.Workers.Check.{Steps, sent_tx_worker_processor_lem}
use zeropool_relayer.Workers.Loop.{Confirms, sent_tx_worker_ends}
use zeropool_relayer.Numerals.Positional.{positional}
use zeropool_relayer.Pool.Types.{get_tx_proof_field, nullifier}
use zeropool_relayer.State.PoolState.{PoolState}
use zeropool_relayer.State.Services.{simple_storage, function_set}
use zeropool_relayer.Workers.DefaultPool.{default_pool, worker_no_double_send}
use zeropool_relayer.Tests.Data.{services, config, proof, state, one, tx, sent_result}

abbrev sign : TransactionConfig → Outcome (Text × Text)
sign t = ok (codes "0xhash", codes "0xraw")

abbrev manager_config : EvmTxManagerConfig
manager_config = record {
  gas_price_bump = some (λ p. p * 2);
  gas_price_surplus = none;
  gas_price_max_fee_limit = none;
}

abbrev manager : EvmTxManager
manager = record {
  nonce = 5;
  chain_id = 1;
  stored_nonce = 5;
  gas_price = record { cached_gas_price = legacy 7; default_gas_price = legacy 1 };
}

abbrev request : SendTx
request = first_request one one

request-IsNew : IsNew request
request-IsNew = record { not_resend = refl; no_nonce = unfold requested spread in refl }

abbrev requests : List (Outcome GasPriceValue × SendTx)
requests = (ok (legacy 9), request) ∷ (throws (error "no price"), request) ∷ []

prepare_all_lem_example :
    let (after, ps) = prepare_all sign manager_config manager requests in
    Consecutive 5 ps × (after.nonce ≡ 5 + 2) × (after.stored_nonce ≡ after.nonce)
prepare_all_lem_example =
    prepare_all_lem sign manager_config manager requests refl (request-IsNew, (request-IsNew, tt))

abbrev attempt : SendAttempt
attempt = record {
  tx_hash = one;
  extra_data = record empty_config { nonce = some 4; gas_price = some 8; gas = some 2000000 };
}

abbrev no_answer : Text → Option Text
no_answer raw = none

abbrev resent : Resent
resent = record {
  attempt = record {
    tx_hash = codes "0xhash";
    extra_data = record empty_config { nonce = some 4; gas_price = some 16; gas = some 2000000 };
  };
  error = none;
}

resends :
    (resend_tx sign manager_config (ok (legacy 9)) no_answer manager (attempt ∷ [])).1 ≡ ok resent
unfolding resend_tx
resends = refl

old_price : get_gas_price_value attempt.extra_data ≡ some (legacy 8)
unfolding get_gas_price_value
old_price = refl

one_kind :
    SameKind
      (add_extra_gas_price (legacy 8) manager_config.gas_price_bump none)
      (priced manager_config manager (ok (legacy 9)) true).1
unfolding add_extra_gas_price priced
one_kind = tt

resend_tx_raises_example :
    (new : GasPriceValue) × (get_gas_price_value resent.attempt.extra_data ≡ some new)
    × Below (add_extra_gas_price (legacy 8) manager_config.gas_price_bump none) new
    × Below (priced manager_config manager (ok (legacy 9)) true).1 new
resend_tx_raises_example =
    resend_tx_raises sign manager_config (ok (legacy 9)) no_answer manager attempt [] resent
      (legacy 8) old_price one_kind resends

abbrev receipt : Receipt
receipt = record { transaction_hash = one; status = true; block_number = some 3 }

abbrev info : TxInfo
info = record { tx_hash = one; success = true; block_number = 3 }

abbrev receipts : Text → Outcome (Option Receipt)
receipts h = ok (some receipt)

confirmed : confirm_tx receipts (one ∷ []) ≡ ok (some info, false)
unfolding confirm_tx
confirmed = refl

confirm_tx_lem_example : Reports receipts (one ∷ []) 1 (some info) × (false ≡ false)
confirm_tx_lem_example = confirm_tx_lem receipts (one ∷ []) (some info) false confirmed

-- A pool that only counts what it sent and confirmed.
abbrev counter : Pool (ℕ × ℕ)
counter = record {
  validate_tx = λ p t. ok tt;
  build_tx = λ p t. (p, ok sent_result);
  on_send = λ p r h. ((suc p.0, p.1), ok tt);
  on_confirmed = λ p r h. (p.0, suc p.1);
  on_failed = λ p h. p;
  mark_failed = λ h j. j;
}

abbrev env : Env
env = record { fetched = ok (legacy 9); sign = sign; answer = no_answer; receipt = receipts }

abbrev job : PoolJob
job = record { tx = tx; state = waiting; tx_hash = none; failed_reason = none }

abbrev world : World (ℕ × ℕ)
world = record { pool = (0, 0); manager = manager; sent_queue = []; paused = false }

pool_tx_worker_processor_lem_example :
    Leaves counter manager_config one env world job
      (pool_tx_worker_processor counter manager_config one env world job)
pool_tx_worker_processor_lem_example =
    pool_tx_worker_processor_lem counter manager_config one env world job

abbrev checked : Checked (ℕ × ℕ)
checked = record {
  pool = (1, 0);
  manager = manager;
  job = record {
    process_result = sent_result;
    prev_attempts = attempt ∷ [];
    saved_attempts = attempt ∷ [];
  };
  pool_job = some job;
}

sent_tx_worker_processor_lem_example :
    Steps counter manager_config 4 env checked
      (sent_tx_worker_processor counter manager_config env checked)
sent_tx_worker_processor_lem_example =
    sent_tx_worker_processor_lem counter manager_config 4 env checked (refl, tt)

attempt-Confirms : Confirms counter manager_config env attempt
attempt-Confirms = record {
  answers = λ h. (some receipt, refl);
  receipt = some receipt;
  info = info;
  answer = refl;
  mined = unfold mined_info in refl;
}

sent_tx_worker_ends_example :
    (with_loop (λ j. sent_tx_worker_processor counter manager_config env) 3 1 checked).1 ≡ true
sent_tx_worker_ends_example =
    sent_tx_worker_ends counter manager_config (λ i. env) 1 3 1 attempt checked (omega arith)
      ([], refl) attempt-Confirms

abbrev pool_worker_world :
    World (PoolState simple_storage function_set × PoolState simple_storage function_set)
pool_worker_world = record {
  pool = (state 0, state 0);
  manager = manager;
  sent_queue = [];
  paused = false;
}

abbrev test_pool :
    Pool (PoolState simple_storage function_set × PoolState simple_storage function_set)
test_pool =
    default_pool positional simple_storage function_set services config [] (λ f. codes "0xaf989083")
      (λ o. ok (proof, 0))

abbrev first_run :
    (World (PoolState simple_storage function_set × PoolState simple_storage function_set)
      × PoolJob)
    × Outcome (Unit {0})
first_run = pool_tx_worker_processor test_pool manager_config one env pool_worker_world job

first_run_sends : first_run ≡ ((first_run.0.0, first_run.0.1), ok tt)
unfolding pool_tx_worker_processor default_pool ◌>>=◌ ◌+ℤ◌ ◌-ℤ◌
first_run_sends = refl

nullifier_of_job : get_tx_proof_field job.tx.proof nullifier ≡ ok one
unfolding get_tx_proof_field
nullifier_of_job = refl

worker_no_double_send_example :
    (pool_tx_worker_processor test_pool manager_config one env first_run.0.0 job).1 ≢ ok tt
worker_no_double_send_example =
    worker_no_double_send positional simple_storage function_set services config []
      (λ f. codes "0xaf989083") (λ o. ok (proof, 0)) manager_config one env env pool_worker_world
      first_run.0.0 job first_run.0.1 job b'1' [] first_run_sends nullifier_of_job nullifier_of_job
