-- ===== src/Deposits.antt =====
-- Direct deposits: zp-relayer/validation/tx/validateDirectDeposit.ts, the worker of
-- zp-relayer/workers/directDepositWorker.ts, and the service that feeds it,
-- zp-relayer/services/direct-deposit/watcher.ts and utils.ts.
pub mod Accepts
pub mod Service
use zeropool_relayer.Base.{
  ℕ, ◌≤◌, Bool, true, false, not, Text, codes, text_eq, List, [], ◌∷◌, ◌++◌, Option, none, some,
  Failure, tx_validation_error, error, Outcome, ok, throws, ◌>>=◌, ◌>>◌, leb, if◌then◌else◌,
}
use zeropool_relayer.Pool.Types.{Proof}
use zeropool_relayer.Validation.{check_assertion, check_screener}
use zeropool_relayer.Workers.{JobState, waiting}

-- `ZkAddress` and `DirectDeposit` of queue/poolTxQueue.ts
pub record ZkAddress : Type 0 where
  pub diversifier : Text
  pub pk : Text

pub record DirectDeposit : Type 0 where
  pub sender : Text
  pub nonce : Text
  pub fallback_user : Text
  pub zk_address : ZkAddress
  pub deposit : Text

-- `DirectDepositStruct`: the answer of the contract
pub record DirectDepositStruct : Type 0 where
  pub fallback_receiver : Text
  pub sent : Text
  pub deposit : Text
  pub fee : Text
  pub timestamp : Text
  pub status : Text
  pub diversifier : Text
  pub pk : Text

-- `SNARK_SCALAR_FIELD`
abbrev pub snark_scalar_field : ℕ
snark_scalar_field = 21888242871839275222246405745257275088548364400416034343698204186575808495617

-- `DirectDepositStatus.Pending`
abbrev pub pending_status : Text
pending_status = codes "1"

-- What a validation of a deposit calls: `toBN`, libzkbob's `isInPrimeSubgroup`, the contract, and the
-- screener, which may be absent.
pub record DepositServices : Type 0 where
  pub to_bn : Text → ℕ
  pub is_in_prime_subgroup : ℕ → Bool
  pub get_direct_deposit : Text → Outcome DirectDepositStruct
  pub screener : Option (Text → Option Bool)

module _ (s : DepositServices) where
  -- `checkDirectDepositPK`
  unfoldable pub check_direct_deposit_pk : Text → Outcome (Option Failure)
  check_direct_deposit_pk pk =
      if leb snark_scalar_field (s.to_bn pk)
      then throws (tx_validation_error "Direct deposit pk is out of snark scalar field")
      else if not (s.is_in_prime_subgroup (s.to_bn pk))
      then throws (tx_validation_error "Direct deposit pk is not in prime subgroup")
      else ok none

  -- the comparisons of `checkDirectDepositConsistency`
  unfoldable pub compare_deposit : DirectDeposit → DirectDepositStruct → Outcome (Option Failure)
  unfolding text_eq
  compare_deposit dd found =
      if not (text_eq found.status pending_status)
      then throws (tx_validation_error "Direct deposit is not pending")
      else if not (text_eq found.fallback_receiver dd.fallback_user)
      then throws (tx_validation_error "Direct deposit has incorrect user")
      else if not (text_eq found.deposit dd.deposit)
      then throws (tx_validation_error "Direct deposit has incorrect amount")
      else ok none

  -- `checkDirectDepositConsistency`
  unfoldable pub check_direct_deposit_consistency : DirectDeposit → Outcome (Option Failure)
  unfolding compare_deposit ◌>>=◌
  check_direct_deposit_consistency dd =
      s.get_direct_deposit dd.nonce >>= λ found. compare_deposit dd found

  -- the block under `if (screener)`
  unfoldable pub check_screened : Option (Text → Option Bool) → DirectDeposit → Outcome (Unit {0})
  unfolding check_screener ◌>>=◌
  check_screened none dd = ok tt
  check_screened (some ask) dd =
      check_assertion (ok (check_screener (ask dd.sender)))
      >> check_assertion (ok (check_screener (ask dd.fallback_user)))

  -- `validateDirectDeposit`
  unfoldable pub validate_direct_deposit : DirectDeposit → Outcome (Unit {0})
  unfolding check_direct_deposit_pk check_direct_deposit_consistency check_screened ◌>>=◌
  validate_direct_deposit dd = do
    check_assertion (check_direct_deposit_pk dd.zk_address.pk)
    check_assertion (check_direct_deposit_consistency dd)
    check_screened s.screener dd

-- `DirectDepositTxPayload`
pub record DirectDepositJob : Type 0 where
  pub deposits : List DirectDeposit
  pub tx_proof : Proof
  pub out_commit : Text
  pub memo : Text
  pub tx_hash : Option Text
  pub state : JobState

-- What `getDirectDepositProof` of pool/FinalizerPool.ts gives: a proof, a memo and a commitment.
pub record DepositProof : Type 0 where
  pub proof : Proof
  pub memo : Text
  pub out_commit : Text

-- `directDepositWorkerProcessor`, on the pool queue
unfoldable pub direct_deposit_worker_processor :
    (List DirectDeposit → Outcome DepositProof)
    → List DirectDeposit
    → List DirectDepositJob
    → List DirectDepositJob × Outcome (Unit {0})
direct_deposit_worker_processor prove deposits queue = elim (prove deposits) [
  | throws e ↦ (queue, throws e)
  | ok p ↦ (
    queue
        ++ (record {
          deposits = deposits;
          tx_proof = p.proof;
          out_commit = p.out_commit;
          memo = p.memo;
          tx_hash = none;
          state = waiting;
        }
            ∷ []),
    ok tt,
  )
]

-- `validateDirectDepositTx` of pool/DefaultPool.ts, on the deposits
unfoldable pub validate_direct_deposit_tx : List DirectDeposit → Outcome (Unit {0})
validate_direct_deposit_tx [] = throws (error "Empty direct deposit batch, skipping")
validate_direct_deposit_tx (d ∷ ds) = ok tt
