-- ===== src/Validation.antt =====
-- zp-relayer/validation/tx/common.ts: the checks of a transaction. A check returns the error or
-- `null`, and `checkAssertion` throws what it returns.
pub mod Caps
pub mod Deadline
pub mod Laws
pub use Caps.{Limits}
unfoldable pub use Caps.{check_limits}
unfoldable pub use Deadline.{check_deadline}
use zeropool_relayer.Base.{
  ℤ, pos, ◌+ℤ◌, ◌-ℤ◌, ltb_ℤ, leb_ℤ, eqb_ℤ, ℕ, ◌≡◌, Bool, true, false, not, ◌||◌, String, Text,
  codes, text_eq, to_lower_case, slice, length, ◌==◌, if◌then◌else◌, Option, none, some, Failure,
  tx_validation_error, error, Outcome, ok, throws, ◌>>=◌, ◌>>◌,
}
use zeropool_relayer.Helpers.TxTypes.{
  TxType, truncate_memo_tx_prefix, truncate_memo_tx_prefix_prover_v2,
}

-- `OptionError`
abbrev pub OptionError : Type 0
OptionError = Option Failure

abbrev pub invalid : String → OptionError
invalid message = some (tx_validation_error message)

-- `if (err) throw err`
abbrev pub throw_if_some : OptionError → Outcome (Unit {0})
throw_if_some none = ok tt
throw_if_some (some e) = throws e

-- `checkAssertion`; the check itself may throw
abbrev pub check_assertion : Outcome OptionError → Outcome (Unit {0})
check_assertion f = f >>= throw_if_some

-- `checkCondition`
abbrev pub check_condition : Bool → String → Outcome (Unit {0})
check_condition true message = ok tt
check_condition false message = throws (tx_validation_error message)

abbrev pub check_size : Text → ℕ → Bool
check_size s size = length s == size

-- `checkScreener`: the answer of the screener, `none` where the request or its parse failed
unfoldable pub check_screener : Option Bool → OptionError
check_screener none = invalid "Internal account validation failed"
check_screener (some true) = invalid "Internal account validation failed"
check_screener (some false) = none

unfoldable pub check_proof : Bool → OptionError
check_proof verified = if verified then none else invalid "Incorrect snark proof"

-- `checkNullifier`, of the answer of the set
unfoldable pub check_nullifier : Bool → OptionError
check_nullifier in_set = if in_set then invalid "Doublespend detected" else none

-- `checkNullifierContract`
unfoldable pub check_nullifier_contract : ℤ → OptionError
check_nullifier_contract is_set =
    if eqb_ℤ is_set (pos 0) then none else invalid "Doublespend detected in contract"

unfoldable pub check_transfer_index : ℤ → ℤ → OptionError
check_transfer_index contract_pool_index transfer_index =
    if leb_ℤ transfer_index contract_pool_index then none else invalid "Incorrect transfer index"

unfoldable pub check_native_amount : Option ℤ → ℤ → ℤ → OptionError
check_native_amount none withdrawal_amount max_native_amount = none
check_native_amount (some native_amount) withdrawal_amount max_native_amount =
    if ltb_ℤ max_native_amount native_amount || ltb_ℤ withdrawal_amount native_amount
    then invalid "Native amount too high"
    else none

unfoldable pub check_fee : ℤ → ℤ → OptionError
check_fee user_fee required_fee =
    if ltb_ℤ user_fee required_fee then invalid "Fee too low" else none

abbrev pub zero_address : Text
zero_address = codes "0x0000000000000000000000000000000000000000"

unfoldable pub check_non_zero_withdraw_address : Text → OptionError
unfolding text_eq
check_non_zero_withdraw_address address =
    if text_eq address zero_address then invalid "Withdraw address cannot be zero" else none

-- `checkDepositEnoughBalance`; an amount of zero or less throws before the balance is fetched
unfoldable pub check_deposit_enough_balance : Outcome ℤ → ℤ → Outcome OptionError
check_deposit_enough_balance balance_of required =
    if leb_ℤ required (pos 0)
    then throws (tx_validation_error "Requested balance check for token amount <= 0")
    else (balance_of >>= λ balance.
        ok (if leb_ℤ required balance then none else invalid "Not enough balance for deposit"))

-- `checkRoot`; the root is `null` where the tree has none at the index
unfoldable pub check_root : Option Text → Text → OptionError
unfolding text_eq
check_root none proof_root = invalid "Incorrect root"
check_root (some state_root) proof_root =
    if text_eq state_root proof_root then none else invalid "Incorrect root"

-- `checkRootIndexer`
unfoldable pub check_root_indexer : Outcome Text → Text → Outcome OptionError
unfolding text_eq
check_root_indexer fetched proof_root = do
  root ← fetched
  ok (if text_eq root proof_root then none else invalid "Incorrect root")

unfoldable pub check_pool_id : ℤ → ℤ → OptionError
check_pool_id delta_pool_id contract_pool_id =
    if eqb_ℤ delta_pool_id contract_pool_id then none else invalid "Incorrect poolId"

unfoldable pub check_memo_prefix : Text → TxType → OptionError
unfolding text_eq truncate_memo_tx_prefix
check_memo_prefix memo tx_type =
    if text_eq (slice 4 8 (truncate_memo_tx_prefix memo tx_type)) (codes "0000")
    then none
    else invalid "Memo prefix is incorrect"

unfoldable pub check_memo_prefix_prover_v2 : Text → TxType → OptionError
unfolding text_eq truncate_memo_tx_prefix_prover_v2
check_memo_prefix_prover_v2 memo tx_type =
    if text_eq (slice 4 8 (truncate_memo_tx_prefix_prover_v2 memo tx_type)) (codes "0002")
    then none
    else invalid "Memo prefix is incorrect"

unfoldable pub check_address_eq : Text → Text → OptionError
unfolding text_eq to_lower_case
check_address_eq address1 address2 =
    if text_eq (to_lower_case address1) (to_lower_case address2)
    then none
    else invalid "Addresses are not equal"
