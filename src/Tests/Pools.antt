-- ===== src/Tests/Pools.antt =====
-- The theorems on validation and sending, at a transfer of nothing.
use zeropool_relayer.Base.{
  negsuc, ◌>>=◌, ◌+ℤ◌, ◌-ℤ◌, pos, ◌≡◌, ◌≢◌, refl, false, List, [], ◌∷◌, none, ok,
}
use zeropool_relayer.Helpers.TxTypes.{withdrawal}
use zeropool_relayer.Memo.{Extra, withdraw_data}
use zeropool_relayer.Pool.Amounts.{
  Party, check_party, check_optional_fee, check_optional_deadline, check_optional_screener,
}
use zeropool_relayer.Pool.Amounts.Accepts.{AmountsFit, check_party-AmountsFit}
use zeropool_relayer.Validation.Caps.{Limits, Allows}
use zeropool_relayer.Numerals.Positional.{positional}
use zeropool_relayer.Pool.Ledger.{
  Event, sent, failed, pool_run, ledger_run, ledger_of, ledger_of-pool_run,
}
use zeropool_relayer.Pool.Default.{validate_normal_tx}
use zeropool_relayer.Pool.Default.Accepts.{Accepted, validate_normal_tx-Accepted}
use zeropool_relayer.Pool.Default.Sending.{on_confirmed, no_double_spend}
use zeropool_relayer.Pool.Types.{PoolTx, Delta, get_tx_proof_field, nullifier}
use zeropool_relayer.Pool.Relay.{validate_tx}
use zeropool_relayer.Pool.Relay.Accepts.{Accepted as RelayAccepted, validate_tx-Accepted}
use zeropool_relayer.State.Services.{simple_storage, function_set}
use zeropool_relayer.Tests.Data.{
  no_delta, one, services, indexer, checks, config, tx, tx_v2, sent_result, state,
}

accepted :
    validate_normal_tx positional simple_storage function_set services config []
      (state 0)
      (state 0)
      none
      checks
      tx
    ≡ ok tt
unfolding validate_normal_tx ◌>>=◌ ◌+ℤ◌ ◌-ℤ◌
accepted = refl

validate_normal_tx-Accepted_example :
    Accepted positional simple_storage function_set services config []
      (state 0)
      (state 0)
      none
      checks
      tx
validate_normal_tx-Accepted_example =
    validate_normal_tx-Accepted positional simple_storage function_set services config [] (state 0)
      (state 0) none checks tx accepted

accepted_v2 :
    validate_tx positional function_set services indexer config [] (λ s. false) checks tx_v2 ≡ ok tt
unfolding validate_tx ◌>>=◌ ◌+ℤ◌ ◌-ℤ◌
accepted_v2 = refl

validate_tx-Accepted_example :
    RelayAccepted positional function_set services indexer config [] (λ s. false) checks tx_v2
validate_tx-Accepted_example =
    validate_tx-Accepted positional function_set services indexer config [] (λ s. false) checks
      tx_v2 accepted_v2

nullifier_of_tx : get_tx_proof_field tx.proof nullifier ≡ ok one
unfolding get_tx_proof_field
nullifier_of_tx = refl

no_double_spend_example :
    validate_normal_tx positional simple_storage function_set services config []
      (on_confirmed positional simple_storage function_set (state 0) (state 128) sent_result one).0
      (on_confirmed positional simple_storage function_set (state 0) (state 128) sent_result one).1
      none
      checks
      tx
    ≢ ok tt
no_double_spend_example =
    no_double_spend positional simple_storage function_set services config [] (state 0) (state 128)
      sent_result one b'1' [] none checks tx refl nullifier_of_tx

abbrev withdrawn : Extra
withdrawn = withdraw_data 0 []

abbrev withdrawal_tx : PoolTx
withdrawal_tx = record tx { tx_type = withdrawal }

abbrev seven_out : Delta
seven_out = record no_delta { token_amount = negsuc 6 }

party_accepted :
    check_party positional services config checks withdrawal_tx [] one seven_out (pos 2) withdrawn
    ≡ ok tt
unfolding check_party ◌>>=◌ ◌+ℤ◌ ◌-ℤ◌
party_accepted = refl

check_party-AmountsFit_example :
    (p : Party) × (l : Limits) × AmountsFit positional services config withdrawal one seven_out
      (pos 2)
      withdrawn
      none
      p
    × (services.get_limits_for p.user_address ≡ ok l)
    × Allows l (negsuc 6)
    × (check_optional_fee positional services config checks withdrawal_tx [] p.native_convert
          (pos 2)
        ≡ ok tt)
    × (check_optional_deadline positional services config withdrawal withdrawn ≡ ok tt)
    × (check_optional_screener positional services config checks withdrawal p.user_address ≡ ok tt)
check_party-AmountsFit_example =
    check_party-AmountsFit positional services config checks withdrawal_tx [] one seven_out (pos 2)
      withdrawn party_accepted

abbrev events : List Event
events = sent sent_result one ∷ failed ∷ []

accepted_later :
    validate_normal_tx positional simple_storage function_set services config []
      (pool_run positional simple_storage function_set events (state 0, state 0)).0
      (pool_run positional simple_storage function_set events (state 0, state 0)).1
      none
      checks
      tx
    ≡ ok tt
unfolding validate_normal_tx pool_run ◌>>=◌ ◌+ℤ◌ ◌-ℤ◌
accepted_later = refl

ledger_of-pool_run_example :
    ledger_of positional simple_storage function_set
      (pool_run positional simple_storage function_set events (state 0, state 0))
    ≡ ledger_run events (ledger_of positional simple_storage function_set (state 0, state 0))
ledger_of-pool_run_example =
    ledger_of-pool_run positional simple_storage function_set events (state 0, state 0)
