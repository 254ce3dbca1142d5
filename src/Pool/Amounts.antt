-- ===== src/Pool/Amounts.antt =====
-- The part of a validation that depends on the type of the transaction: it is written twice in the
-- source, in `RelayPool.validateTx` and `DefaultPool.validateNormalTx`, with the same checks.
pub mod Accepts
use zeropool_relayer.Base.{
  ℤ, pos, neg, ◌+ℤ◌, ltb_ℤ, leb_ℤ, eqb_ℤ, ℕ, Bool, true, false, not, ◌&&◌, ◌||◌, String, Text,
  codes, ◌++◌, if◌then◌else◌, Option, none, some, List, Outcome, ok, throws, tx_validation_error,
  ◌>>=◌, ◌>>◌,
}
use zeropool_relayer.Helpers.TxTypes.{TxType, deposit, transfer, withdrawal, permittable_deposit}
use zeropool_relayer.Helpers.Denominator.{apply_denominator}
use zeropool_relayer.Memo.{Extra, nothing, withdraw_data, permit_data}
use zeropool_relayer.Numerals.{Numerals}
use zeropool_relayer.Pool.Types.{PoolTx, Services, OptionalChecks, Delta}
use zeropool_relayer.Pool.Recover.{get_recovered_address}
use zeropool_relayer.Validation.{
  check_assertion, check_condition, check_non_zero_withdraw_address, check_native_amount,
  check_deposit_enough_balance, check_fee, check_limits, check_deadline, check_screener,
}

-- What the settings of the pool and of the relayer give.
pub record PoolConfig : Type 0 where
  pub denominator : ℕ
  pub pool_id : ℤ
  -- the address whose limits a transfer uses
  pub own_address : Text
  pub max_native_amount : ℤ
  pub deadline_threshold : ℕ

-- The user's address, and whether a withdrawal converts to the native coin.
pub record Party : Type 0 where
  pub user_address : Text
  pub native_convert : Bool

abbrev is_some : Option Text → Bool
is_some none = false
is_some (some s) = true

abbrev or_empty : Option Text → Text
or_empty none = codes ""
or_empty (some s) = s

module _ (num : Numerals) (w : Services) (c : PoolConfig) where
  withdrawal_party : Delta → ℤ → ℕ → List ℕ → Outcome Party
  unfolding check_non_zero_withdraw_address check_native_amount
  withdrawal_party delta total_fee native_amount receiver = do
    let amount = delta.token_amount +ℤ total_fee
    check_condition (leb_ℤ amount (pos 0) && leb_ℤ delta.energy_amount (pos 0))
        "Incorrect withdraw amounts"
    check_assertion (ok (check_non_zero_withdraw_address (w.bytes_to_hex receiver)))
    check_assertion
        (ok (check_native_amount (some (pos native_amount)) (neg amount) c.max_native_amount))
    ok (record {
      user_address = w.bytes_to_hex receiver;
      native_convert = not (eqb_ℤ (pos native_amount) (pos 0));
    })

  deposit_party : TxType → Text → Delta → ℤ → Extra → Option Text → Outcome Party
  unfolding apply_denominator get_recovered_address check_deposit_enough_balance
  deposit_party tx_type nullifier delta total_fee extra signature = do
    check_condition (ltb_ℤ (pos 0) delta.token_amount && eqb_ℤ delta.energy_amount (pos 0))
        "Incorrect deposit amounts"
    check_condition (is_some signature) "Deposit signature is required"
    let required = apply_denominator (delta.token_amount +ℤ total_fee) c.denominator
    user ← get_recovered_address num w tx_type nullifier extra required (or_empty signature)
    check_assertion (check_deposit_enough_balance (w.balance_of user) required)
    ok (record { user_address = user; native_convert = false })

  transfer_party : Delta → ℤ → Outcome Party
  transfer_party delta total_fee = do
    check_condition
        (eqb_ℤ (delta.token_amount +ℤ total_fee) (pos 0) && eqb_ℤ delta.energy_amount (pos 0))
        "Incorrect transfer amounts"
    ok (record { user_address = c.own_address; native_convert = false })

  -- The `if` on the type of the transaction; `total_fee` is the fee of the pool's version. The parser
  -- gives a withdrawal its own fields, so the last case does not arise.
  unfoldable pub check_amounts : TxType → Text → Delta → ℤ → Extra → Option Text → Outcome Party
  unfolding withdrawal_party deposit_party transfer_party
  check_amounts withdrawal nullifier delta total_fee (withdraw_data native_amount receiver)
        signature =
      withdrawal_party delta total_fee native_amount receiver
  check_amounts deposit nullifier delta total_fee extra signature =
      deposit_party deposit nullifier delta total_fee extra signature
  check_amounts permittable_deposit nullifier delta total_fee extra signature =
      deposit_party permittable_deposit nullifier delta total_fee extra signature
  check_amounts transfer nullifier delta total_fee extra signature = transfer_party delta total_fee
  check_amounts withdrawal nullifier delta total_fee extra signature =
      throws (tx_validation_error "Unsupported TxType")

  -- `if (optionalChecks.fee)`, with the text that the source passes as calldata; `mock` is
  -- `MOCK_CALLDATA`
  unfoldable pub check_optional_fee : OptionalChecks → PoolTx → Text → Bool → ℤ → Outcome (Unit {0})
  unfolding check_fee
  check_optional_fee o tx mock native_convert total_fee = elim o.fee [
    | none ↦ ok tt
    | some estimate ↦
        estimate tx.tx_type native_convert (mock ++ (tx.memo ++ or_empty tx.deposit_signature))
        >>= λ required. check_assertion (ok (check_fee total_fee required))
  ]

  -- `if (txType === TxType.PERMITTABLE_DEPOSIT)`: the deadline
  unfoldable pub check_optional_deadline : TxType → Extra → Outcome (Unit {0})
  unfolding check_deadline
  check_optional_deadline permittable_deposit (permit_data deadline holder) =
      check_assertion (ok (check_deadline num w.now_ms deadline c.deadline_threshold))
  check_optional_deadline tx_type extra = ok tt

  -- the screener, for all types but a transfer
  unfoldable pub check_optional_screener : OptionalChecks → TxType → Text → Outcome (Unit {0})
  unfolding check_screener
  check_optional_screener o transfer user = ok tt
  check_optional_screener o tx_type user =
      if o.screener then check_assertion (ok (check_screener (w.screener user))) else ok tt

  -- The end of both validations: amounts and user, fee, limits, deadline, screener.
  unfoldable pub check_party :
      OptionalChecks → PoolTx → Text → Text → Delta → ℤ → Extra → Outcome (Unit {0})
  unfolding check_amounts check_optional_fee check_optional_deadline check_optional_screener
      check_limits
  check_party o tx mock nullifier delta total_fee extra = do
    p ← check_amounts tx.tx_type nullifier delta total_fee extra tx.deposit_signature
    check_optional_fee o tx mock p.native_convert total_fee
    limits ← w.get_limits_for p.user_address
    check_assertion (ok (check_limits limits delta.token_amount))
    check_optional_deadline tx.tx_type extra
    check_optional_screener o tx.tx_type p.user_address
