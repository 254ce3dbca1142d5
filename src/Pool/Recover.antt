-- ===== src/Pool/Recover.antt =====
-- `getRecoveredAddress` of zp-relayer/validation/tx/common.ts.
use zeropool_relayer.Base.{
  ℕ, ℤ, pos, String, Text, codes, ◌++◌, text_eq, to_lower_case, if◌then◌else◌, Option, none, some,
  Outcome, ok, throws, tx_validation_error, ◌>>=◌, ◌>>◌,
}
use zeropool_relayer.Helpers.TxTypes.{TxType, deposit, permittable_deposit}
use zeropool_relayer.Helpers.Hex.{num_to_hex}
use zeropool_relayer.Helpers.Signature.{unpack_signature}
use zeropool_relayer.Memo.{Extra, permit_data}
use zeropool_relayer.Numerals.{Numerals}
use zeropool_relayer.Pool.Types.{Services, PermitRecover, RecoverParams}
use zeropool_relayer.Validation.{check_condition, check_size}

-- The error that a precondition returns is thrown.
abbrev pub precondition_holds : Option String → Outcome (Unit {0})
precondition_holds none = ok tt
precondition_holds (some message) = throws (tx_validation_error "Invalid permit precondition")

-- Addresses are compared without regard to case.
unfoldable pub same_signer : Text → Text → Outcome Text
unfolding text_eq to_lower_case
same_signer recovered owner =
    if text_eq (to_lower_case recovered) (to_lower_case owner)
    then ok recovered
    else throws (tx_validation_error "Invalid deposit signer")

module _ (num : Numerals) (w : Services) where
  -- The branch of a permittable deposit.
  unfoldable pub recover_permit : Option PermitRecover → RecoverParams → Text → Outcome Text
  unfolding same_signer
  recover_permit none params sig =
      throws (tx_validation_error "Permittable deposits are not enabled")
  recover_permit (some p) params sig = do
    failed ← p.precondition params
    precondition_holds failed
    recovered ← p.recover_permit_signature params sig
    same_signer recovered params.owner

  -- `const { holder, deadline } = txData` and the parameters built from them
  abbrev recover_params : ℕ → Text → Text → ℤ → RecoverParams
  recover_params deadline holder nullifier amount = record {
    owner = w.to_checksum_address holder;
    deadline = deadline;
    spender = w.to_checksum_address w.pool_address;
    amount = amount;
    nullifier = nullifier;
  }

  -- The dispatch on the type of the transaction.
  unfoldable pub recover_by_type : TxType → Text → Extra → ℤ → Text → Outcome Text
  unfolding recover_permit
  recover_by_type deposit nullifier extra amount sig = w.recover nullifier sig
  recover_by_type permittable_deposit nullifier (permit_data deadline holder) amount sig =
      recover_permit w.permit_recover
        (recover_params deadline (w.bytes_to_hex holder) nullifier amount) sig
  recover_by_type tx_type nullifier extra amount sig =
      throws (tx_validation_error "Unsupported TxType")

  -- `getRecoveredAddress`
  unfoldable pub get_recovered_address : TxType → Text → Extra → ℤ → Text → Outcome Text
  unfolding num_to_hex unpack_signature recover_by_type
  get_recovered_address tx_type proof_nullifier extra token_amount deposit_signature = do
    check_condition (check_size deposit_signature 128) "Invalid deposit signature size"
    sig ← unpack_signature num w.to_bn deposit_signature
    recover_by_type tx_type (codes "0x" ++ num_to_hex num (pos (num.of_dec proof_nullifier)) 64)
        extra token_amount sig
