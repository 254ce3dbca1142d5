-- ===== src/Pool/Types.antt =====
-- `BasePoolTx` (queue/poolTxQueue.ts), `Delta` and `getTxProofField` (utils/proofInputs.ts),
-- `OptionalChecks` and `ProcessResult` (pool/types.ts), and the services that a validation calls.
use zeropool_relayer.Base.{
  ℤ, ℕ, Bool, String, Text, List, [], ◌∷◌, Option, Outcome, ok, throws, error,
}
use zeropool_relayer.Helpers.TxTypes.{TxType}
use zeropool_relayer.Helpers.Hex.{SnarkProof}
use zeropool_relayer.Validation.{Limits}

-- `Proof` of libzkbob-rs
pub record Proof : Type 0 where
  pub proof : SnarkProof
  pub inputs : List Text

-- `BasePoolTx`
pub record PoolTx : Type 0 where
  pub proof : Proof
  pub memo : Text
  pub tx_type : TxType
  pub deposit_signature : Option Text

-- `Delta`
pub record Delta : Type 0 where
  pub transfer_index : ℤ
  pub energy_amount : ℤ
  pub token_amount : ℤ
  pub pool_id : ℤ

pub data TxProofField : Type 0 where
  root nullifier out_commit delta memo : TxProofField

-- The places of `txProofFieldMapping` among the five inputs.
unfoldable pub field_of : List Text → TxProofField → Outcome Text
field_of (r ∷ n ∷ c ∷ d ∷ m ∷ []) root = ok r
field_of (r ∷ n ∷ c ∷ d ∷ m ∷ []) nullifier = ok n
field_of (r ∷ n ∷ c ∷ d ∷ m ∷ []) out_commit = ok c
field_of (r ∷ n ∷ c ∷ d ∷ m ∷ []) delta = ok d
field_of (r ∷ n ∷ c ∷ d ∷ m ∷ []) memo = ok m
field_of inputs field = throws (error "Incorrect number of proof inputs")

-- `getTxProofField`
unfoldable pub get_tx_proof_field : Proof → TxProofField → Outcome Text
unfolding field_of
get_tx_proof_field p field = field_of p.inputs field

-- `RecoverParams` of utils/permit/IPermitRecover.ts
pub record RecoverParams : Type 0 where
  pub owner : Text
  pub deadline : ℕ
  pub spender : Text
  pub amount : ℤ
  pub nullifier : Text

-- `PermitRecover`: the precondition's error, and the signer of a permit
pub record PermitRecover : Type 0 where
  pub precondition : RecoverParams → Outcome (Option String)
  pub recover_permit_signature : RecoverParams → Text → Outcome Text

-- The calls of a validation that leave the program, each with its answer: libzkbob (`parseDelta`,
-- `Proof.verify`), web3-utils (`toBN` of a text without prefix, `bytesToHex`, `toChecksumAddress`),
-- the contracts, the clock and the screener (`none` where its request fails).
pub record Services : Type 0 where
  pub parse_delta : Text → Delta
  pub verify_proof : SnarkProof → List Text → Bool
  pub to_bn : Text → ℕ
  pub buffer_from_hex : Text → List ℕ
  pub bytes_to_hex : List ℕ → Text
  pub to_checksum_address : Text → Text
  pub recover : Text → Text → Outcome Text
  pub contract_nullifier : Text → Outcome ℤ
  pub balance_of : Text → Outcome ℤ
  pub get_limits_for : Text → Outcome Limits
  pub screener : Text → Option Bool
  pub pool_address : Text
  pub now_ms : ℕ
  pub permit_recover : Option PermitRecover

-- `OptionalChecks`, less the tree proof: the required fee by the fee manager (as a function of the
-- conversion flag and the calldata, in pool units), and whether to ask the screener
pub record OptionalChecks : Type 0 where
  pub fee : Option (TxType → Bool → Text → Outcome ℤ)
  pub screener : Bool

-- `BaseProcessResult`
pub record ProcessResult : Type 0 where
  pub calldata : Text
  pub func : String
  pub nullifier : Option Text
  pub out_commit : Text
  pub memo : Text
  pub commit_index : ℕ
