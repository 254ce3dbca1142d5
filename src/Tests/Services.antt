-- ===== src/Tests/Services.antt =====
-- The theorems on endpoints, watchers, direct deposits and providers.
use zeropool_relayer.Base.{
  pos, to_lower_case, ◌↔◌, error, throws, suc, zero, ℕ, ◌+◌, ◌≤◌, ◌≡◌, refl, true, false, Text,
  text_eq, codes, List, [], ◌∷◌, ◌++◌, length, map, take, drop, ◌==◌, length-take, length-drop,
  none, some, Outcome, ok, arith, ◌>>=◌, Option, if◌then◌else◌,
}
use mathlib.Core.List.{Perm}
use zeropool_relayer.Batch.{SortedSet}
use zeropool_relayer.Batch.Processing.{BatchCache, process_cache}
use zeropool_relayer.Batch.Batches.{Processed, process_cache_lem}
use zeropool_relayer.Cache.{StoredTx}
use zeropool_relayer.Cache.Observer.{indexer_commitment}
use zeropool_relayer.Deposits.{DirectDeposit, DepositServices, validate_direct_deposit}
use zeropool_relayer.Deposits.Accepts.{Accepted, validate_direct_deposit-Accepted}
use zeropool_relayer.Deposits.Service.{validates, ServiceRound}
use zeropool_relayer.Endpoints.{relayer_page, sort_by_time}
use zeropool_relayer.Endpoints.Pending.{unindexed, IsSorted, relayer_page_lem}
use zeropool_relayer.Numerals.Positional.{positional}
use zeropool_relayer.Numerals.Value.{value}
use zeropool_relayer.Permits.{PermitContracts, PermitTransferFrom, Typed, permit2_recover}
use zeropool_relayer.Permits.Accepts.{Covered, Unused, signed, recover_permit-Covered}
use zeropool_relayer.Pool.Types.{RecoverParams}
use zeropool_relayer.Pool.Recover.{recover_permit}
use zeropool_relayer.Pool.Finalizer.{FinalizerResult}
use zeropool_relayer.Providers.{HttpListProvider, switch_back}
use zeropool_relayer.Providers.Answers.{switch_back_lem}
use zeropool_relayer.State.Services.{simple_storage, function_set}
use zeropool_relayer.State.PoolState.{PoolState}
use zeropool_relayer.Tests.Data.{one, services}
use zeropool_relayer.Watching.{Range, WatcherConfig, Watcher, watch}
use zeropool_relayer.Watching.Blocks.{Chained, watch-Chained}
use zeropool_relayer.Watching.Commitments.{FinalizeJob, JobQueue}

-- A state with a transaction at index 0, and one with transactions at all indices.
abbrev first_only : PoolState simple_storage function_set
first_only = record {
  tree = (128, λ i. []);
  txs = λ i. if i == 0 then some (codes "ab") else none;
  nullifiers = λ n. false;
}

abbrev filled : PoolState simple_storage function_set
filled = record { tree = (384, λ i. []); txs = λ i. some (codes "cd"); nullifiers = λ n. false }

abbrev entries : List (Text × StoredTx)
entries =
    (one, record { memo = codes "ab"; timestamp = 9 })
    ∷ (codes "2", record { memo = codes "cd"; timestamp = 5 })
    ∷ []

abbrev parse_hex : Text → ℕ
parse_hex s = value 16 s

relayer_page_lem_example :
    (relayer_page positional parse_hex 3 (codes "1" ∷ []) entries
      ≡ (codes "1" ∷ [])
        ++ take 2 (
            unindexed
              (map (indexer_commitment positional parse_hex) (codes "1" ∷ []))
              (sort_by_time entries)))
    × IsSorted (sort_by_time entries)
    × Perm (sort_by_time entries) entries
relayer_page_lem_example = relayer_page_lem positional parse_hex 3 (codes "1" ∷ []) entries

abbrev watcher_config : WatcherConfig
watcher_config = record { block_confirmations = 1; start_block = 1; batch_size = 2 }

-- A watcher that has processed nothing, and a processor that counts batches.
abbrev fresh : Watcher ℕ
fresh = record { last_processed_block = 0; completed = []; store = 0 }

abbrev counting : Range → ℕ → ℕ × Outcome (Unit {0})
counting b n = (n + 1, ok tt)

watch-Chained_example :
    let after = watch counting watcher_config 6 fresh in
    Chained 0 after.completed after.last_processed_block × (0 ≤ after.last_processed_block)
watch-Chained_example = watch-Chained counting watcher_config 0 6 fresh (omega arith) refl

abbrev function_queue : JobQueue
function_queue = record {
  Queue = Text → Option FinalizeJob;
  get_job = λ q i. q i;
  remove = λ q i j. if text_eq i j then none else q j;
  add = λ q i x j. if text_eq i j then some x else q j;
  get_job-remove = λ q i j. refl;
  get_job-add = λ q i j x h. refl;
}

abbrev deposit : DirectDeposit
deposit = record {
  sender = one;
  nonce = one;
  fallback_user = one;
  zk_address = record { diversifier = one; pk = one };
  deposit = one;
}

abbrev deposit_services : DepositServices
deposit_services = record {
  to_bn = λ s. 7;
  is_in_prime_subgroup = λ n. true;
  get_direct_deposit = λ nonce. ok (record {
    fallback_receiver = one;
    sent = one;
    deposit = one;
    fee = one;
    timestamp = one;
    status = one;
    diversifier = one;
    pk = one;
  });
  screener = some (λ a. some false);
}

deposit_accepted : validate_direct_deposit deposit_services deposit ≡ ok tt
unfolding validate_direct_deposit ◌>>=◌
deposit_accepted = refl

validate_direct_deposit-Accepted_example : Accepted deposit_services deposit
validate_direct_deposit-Accepted_example =
    validate_direct_deposit-Accepted deposit_services deposit deposit_accepted

-- A sorted set as the list of its entries.
abbrev deposit_set : SortedSet DirectDeposit
deposit_set = record {
  Members = List DirectDeposit;
  zpopmin = λ s n. (take n s, drop n s);
  zcard = λ s. length s;
  length-zpopmin = λ s n. length-take n s;
  zcard-zpopmin = λ s n. length-drop n s;
}

abbrev some_deposits : BatchCache deposit_set 2 (validates deposit_services)
some_deposits = record { members = deposit ∷ deposit ∷ deposit ∷ []; timer = false; batches = [] }

process_cache_lem_example :
    Processed deposit_set 2
      (validates deposit_services)
      some_deposits
      (process_cache deposit_set 2 (validates deposit_services) 4 some_deposits)
process_cache_lem_example =
    process_cache_lem deposit_set 2 (validates deposit_services) 4 some_deposits (omega arith)
      (omega arith)

-- `ZADD` of deposits at the end, and one deposit in every batch of blocks.
abbrev put_last : List DirectDeposit → List (Text × DirectDeposit) → List DirectDeposit
put_last s [] = s
put_last s ((score, d) ∷ ds) = put_last (s ++ (d ∷ [])) ds

-- A round with events, one whose events cannot be fetched, and one in which Redis fails.
abbrev service_round :
    Outcome (List DirectDeposit)
    → Outcome (Unit {0})
    → ServiceRound deposit_services deposit_set put_last 2
service_round ds redis = record { last_block_number = 6; events = λ b. ds; redis = λ b. redis }

abbrev service_run : List (ServiceRound deposit_services deposit_set put_last 2)
service_run =
    service_round (throws (error "no events")) (ok tt)
    ∷ service_round (ok (deposit ∷ [])) (throws (error "no redis"))
    ∷ service_round (ok (deposit ∷ [])) (ok tt)
    ∷ []

abbrev service : Watcher (BatchCache deposit_set 2 (validates deposit_services))
service = record { last_processed_block = 0; completed = []; store = some_deposits }

abbrev finalized : FinalizerResult
finalized = record {
  calldata = [];
  func = "proveTreeUpdate(uint256,uint256[8],uint256)";
  commit_index = 1;
  out_commit = one;
  memo = [];
  root = one;
}

-- A provider of three URLs, the first of which throws.
abbrev three : ℕ → HttpListProvider
three i = record { current_index = i; last_time_used_primary = 0; latest_block = 0 }

abbrev url_answers : ℕ → ℕ → Outcome ℕ
url_answers attempt zero = throws (error "down")
url_answers attempt (suc i) = ok (suc i)

switch_back_lem_example :
    ((switch_back 3 3600001 (three 1)).current_index ≡ 2)
    × ((switch_back 3 3600001 (three 1)).current_index ≡ 0 ↔ ◌≡◌ {A = ℕ} 2 3)
switch_back_lem_example =
    switch_back_lem 3 3600001 (three 1) (omega arith) (omega arith) (omega arith)

-- A permit for 5 tokens at an owner whose bitmap is empty.
abbrev permit_contracts : PermitContracts
permit_contracts = record {
  token_address = one;
  allowance = λ owner spender. ok 5;
  nonces = λ owner. ok one;
  nonce_bitmap = λ owner word. ok 0;
  authorization_state = λ owner nonce. ok 0;
}

abbrev permit : RecoverParams
permit = record {
  owner = codes "0xAb";
  deadline = 100;
  spender = one;
  amount = pos 5;
  nullifier = codes "300";
}

abbrev ethers : Typed PermitTransferFrom
ethers = record {
  hash = λ message. message.spender;
  recover_address = λ domain h s. ok (codes "0xaB");
}

abbrev nonce_of : Text → ℕ
nonce_of s = 300

recover_permit-Covered_example :
    Covered nonce_of (λ s. s) permit_contracts one permit
    × Unused nonce_of (λ s. s) permit_contracts one permit
    × (text_eq (to_lower_case (codes "0xaB")) (to_lower_case permit.owner) ≡ true)
    × ((d : Text) × (some one ≡ some d)
        × (ethers.recover_address d
              (ethers.hash (signed nonce_of (λ s. s) permit_contracts one permit))
              one
            ≡ ok (codes "0xaB")))
unfolding recover_permit permit2_recover to_lower_case text_eq
recover_permit-Covered_example =
    recover_permit-Covered nonce_of (λ s. s) permit_contracts one permit positional services ethers
      (some one) one (codes "0xaB") refl
