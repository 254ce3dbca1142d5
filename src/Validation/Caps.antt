-- ===== src/Validation/Caps.antt =====
-- `Limits` of zp-relayer/pool/types.ts, `checkLimits` of zp-relayer/validation/tx/common.ts, and
-- `processLimits` of zp-relayer/pool/BasePool.ts.
use zeropool_relayer.Base.{
  ℤ, pos, ◌+ℤ◌, ◌-ℤ◌, int_laws, neg, neg_parts, ◌≤ℤ◌, ◌<ℤ◌, ltb_ℤ, leb_ℤ, ◌≡◌, ◌↔◌, String,
  if◌then◌else◌, Option, none, some, Failure, tx_validation_error, arith,
}

-- `Limits`: the amounts that the accounting contract returns, as `BN`.
pub record Limits : Type 0 where
  pub tvl_cap : ℤ
  pub tvl : ℤ
  pub daily_deposit_cap : ℤ
  pub daily_deposit_cap_usage : ℤ
  pub daily_withdrawal_cap : ℤ
  pub daily_withdrawal_cap_usage : ℤ
  pub daily_user_deposit_cap : ℤ
  pub daily_user_deposit_cap_usage : ℤ
  pub deposit_cap : ℤ
  pub tier : ℤ
  pub daily_user_direct_deposit_cap : ℤ
  pub daily_user_direct_deposit_cap_usage : ℤ
  pub direct_deposit_cap : ℤ

abbrev limit_error : String → Option Failure
limit_error message = some (tx_validation_error message)

-- `checkLimits`
unfoldable pub check_limits : Limits → ℤ → Option Failure
check_limits limits amount =
    if ltb_ℤ (pos 0) amount
    then if ltb_ℤ limits.deposit_cap amount
      then limit_error "Single deposit cap exceeded"
      else if leb_ℤ limits.tvl_cap (limits.tvl +ℤ amount)
      then limit_error "Tvl cap exceeded"
      else if ltb_ℤ limits.daily_user_deposit_cap (limits.daily_user_deposit_cap_usage +ℤ amount)
      then limit_error "Daily user deposit cap exceeded"
      else if ltb_ℤ limits.daily_deposit_cap (limits.daily_deposit_cap_usage +ℤ amount)
      then limit_error "Daily deposit cap exceeded"
      else none
    else if ltb_ℤ limits.daily_withdrawal_cap (limits.daily_withdrawal_cap_usage -ℤ amount)
    then limit_error "Daily withdrawal cap exceeded"
    else none

-- What the limits allow: a deposit stays within its own cap and the two daily ones and leaves the
-- pool below its total; any other amount is a withdrawal within its daily cap.
pub record Allows (limits : Limits) (amount : ℤ) : Type 0 where
  pub single : pos 0 <ℤ amount → amount ≤ℤ limits.deposit_cap
  pub total : pos 0 <ℤ amount → limits.tvl +ℤ amount <ℤ limits.tvl_cap
  pub user :
      pos 0 <ℤ amount
      → limits.daily_user_deposit_cap_usage +ℤ amount ≤ℤ limits.daily_user_deposit_cap
  pub everyone :
      pos 0 <ℤ amount → limits.daily_deposit_cap_usage +ℤ amount ≤ℤ limits.daily_deposit_cap
  pub withdrawal :
      amount ≤ℤ pos 0 → limits.daily_withdrawal_cap_usage -ℤ amount ≤ℤ limits.daily_withdrawal_cap

pub check_limits-Allows :
    (limits : Limits) (amount : ℤ) → check_limits limits amount ≡ none → Allows limits amount
unfolding check_limits
check_limits-Allows limits amount h = ground arith

pub Allows-check_limits :
    (limits : Limits) (amount : ℤ) → Allows limits amount → check_limits limits amount ≡ none
unfolding check_limits
Allows-check_limits limits amount h = ground arith

-- `LimitsFetch`, with numbers where the source prints them.
pub record LimitsFetch : Type 0 where
  pub deposit_single_operation : ℤ
  pub deposit_daily_for_address_total : ℤ
  pub deposit_daily_for_address_available : ℤ
  pub deposit_daily_for_all_total : ℤ
  pub deposit_daily_for_all_available : ℤ
  pub deposit_pool_limit_total : ℤ
  pub deposit_pool_limit_available : ℤ
  pub withdraw_daily_for_all_total : ℤ
  pub withdraw_daily_for_all_available : ℤ
  pub dd_single_operation : ℤ
  pub dd_daily_for_address_total : ℤ
  pub dd_daily_for_address_available : ℤ
  pub tier : ℤ

-- `processLimits`
unfoldable pub process_limits : Limits → LimitsFetch
process_limits limits = record {
  deposit_single_operation = limits.deposit_cap;
  deposit_daily_for_address_total = limits.daily_user_deposit_cap;
  deposit_daily_for_address_available =
      limits.daily_user_deposit_cap -ℤ limits.daily_user_deposit_cap_usage;
  deposit_daily_for_all_total = limits.daily_deposit_cap;
  deposit_daily_for_all_available = limits.daily_deposit_cap -ℤ limits.daily_deposit_cap_usage;
  deposit_pool_limit_total = limits.tvl_cap;
  deposit_pool_limit_available = limits.tvl_cap -ℤ limits.tvl;
  withdraw_daily_for_all_total = limits.daily_withdrawal_cap;
  withdraw_daily_for_all_available =
      limits.daily_withdrawal_cap -ℤ limits.daily_withdrawal_cap_usage;
  dd_single_operation = limits.direct_deposit_cap;
  dd_daily_for_address_total = limits.daily_user_direct_deposit_cap;
  dd_daily_for_address_available =
      limits.daily_user_direct_deposit_cap -ℤ limits.daily_user_direct_deposit_cap_usage;
  tier = limits.tier;
}

-- An amount is at most what the user is shown for one operation, for the address and for all, and less
-- than what is shown for the pool.
pub record Fits (fetched : LimitsFetch) (amount : ℤ) : Type 0 where
  pub single : amount ≤ℤ fetched.deposit_single_operation
  pub address : amount ≤ℤ fetched.deposit_daily_for_address_available
  pub everyone : amount ≤ℤ fetched.deposit_daily_for_all_available
  pub pool : amount <ℤ fetched.deposit_pool_limit_available

-- A deposit passes the limits exactly when it is at most what the user is shown for one operation and
-- as available for the address and for all users, and less than what is shown as available in the pool:
-- the whole of the latter is refused.
pub check_limits-process_limits :
    (limits : Limits) (amount : ℤ)
    → pos 0 <ℤ amount
    → (check_limits limits amount ≡ none) ↔ Fits (process_limits limits) amount
unfolding process_limits
check_limits-process_limits limits amount positive = (
  λ h.
      let a = check_limits-Allows limits amount h in
      record {
        single = a.single positive;
        address = omega (int_laws, a.user positive);
        everyone = omega (int_laws, a.everyone positive);
        pool = omega (int_laws, a.total positive);
      },
  λ f. Allows-check_limits limits amount (record {
    single = λ _. f.single;
    total = λ _. omega (int_laws, f.pool);
    user = λ _. omega (int_laws, f.address);
    everyone = λ _. omega (int_laws, f.everyone);
    withdrawal = λ w. absurd (omega arith);
  }),
)

-- An amount that is no deposit passes exactly when the daily withdrawals shown as available cover it.
pub check_limits_withdrawal :
    (limits : Limits) (amount : ℤ)
    → amount ≤ℤ pos 0
    → (check_limits limits amount ≡ none)
      ↔ (neg amount ≤ℤ (process_limits limits).withdraw_daily_for_all_available)
unfolding process_limits
check_limits_withdrawal limits amount negative = (
  λ h.
      omega (int_laws, neg_parts amount, (check_limits-Allows limits amount h).withdrawal negative),
  λ f. Allows-check_limits limits amount (record {
    single = λ p. absurd (omega arith);
    total = λ p. absurd (omega arith);
    user = λ p. absurd (omega arith);
    everyone = λ p. absurd (omega arith);
    withdrawal = λ _. omega (int_laws, neg_parts amount);
  }),
)
