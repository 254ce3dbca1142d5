-- ===== src/TxManager.antt =====
-- zp-relayer/lib/network/evm/EvmTxManager.ts, with `getGasPriceValue` of lib/gas-price/GasPrice.ts
-- and the types of lib/network/types.ts. The mutex makes each `prepareTx` one step.
pub mod Types
pub mod Errors
pub mod Nonces
pub mod Prices
pub mod Receipts
pub mod Tron
unfoldable pub use Types.*
use zeropool_relayer.Base.{
  ℕ, zero, suc, Bool, true, false, String, ◌==◌, not, ◌||◌, ◌&&◌, Text, List, [], ◌∷◌, length,
  get_elem?, Option, none, some, Outcome, ok, throws, error, ◌>>=◌, if◌then◌else◌, map,
}
use zeropool_relayer.Gas.{
  GasPriceValue, legacy, eip1559, GasPrice, fetch_once, get_price, add_extra_gas_price,
  choose_gas_price_options,
}
use Errors.{
  is_gas_price_error, is_same_transaction_error, is_nonce_error, is_insufficient_balance_error,
}

-- `init`: the node's count of transactions is the nonce, here and in Redis
unfoldable pub init : EvmTxManager → ℕ → ℕ → EvmTxManager
init m count chain = record m { nonce = count; stored_nonce = count; chain_id = chain }

-- `updateAndBumpGasPrice`, less the old price that it returns for the log
unfoldable pub update_and_bump_gas_price :
    EvmTxManagerConfig → TransactionConfig → GasPriceValue → GasPriceValue
unfolding get_gas_price_value add_extra_gas_price choose_gas_price_options
update_and_bump_gas_price c tx new = elim (get_gas_price_value tx) [
  | some old ↦ choose_gas_price_options (add_extra_gas_price old c.gas_price_bump none) new
  | none ↦ new
]

-- txDesc, then extraData, then the gas of extraData
unfoldable pub requested : SendTx → TransactionConfig
unfolding spread
requested t = elim t.extra_data [ none ↦ t.tx_desc | some e ↦ spread t.tx_desc e ]

-- The state after the gas price is read, and that price with its surplus.
unfoldable pub priced :
    EvmTxManagerConfig → EvmTxManager → Outcome GasPriceValue → Bool → EvmTxManager × GasPriceValue
unfolding fetch_once get_price add_extra_gas_price
priced c m fetched update =
    let (gas_price, value) =
      if update
      then fetch_once m.gas_price fetched true
      else (m.gas_price, get_price m.gas_price) in
    (
      record m { gas_price = gas_price },
      add_extra_gas_price value c.gas_price_surplus c.gas_price_max_fee_limit,
    )

-- The promises around `sendSignedTransaction`: its `transactionHash` event (no error) or its `error`
-- event, where 'already known' errors count as sent.
unfoldable pub send_failure : Option Text → Option Text
unfolding is_same_transaction_error
send_failure none = none
send_failure (some e) = if is_same_transaction_error e then none else some e

pub data SendError : Type 0 where
  insufficient_balance nonce_error gas_price_error : SendError

-- the `catch` of `resendTx`
unfoldable pub send_error : Text → SendError
unfolding is_gas_price_error is_same_transaction_error is_insufficient_balance_error is_nonce_error
send_error e =
    if is_gas_price_error e || is_same_transaction_error e
    then gas_price_error
    else if is_insufficient_balance_error e
    then insufficient_balance
    else if is_nonce_error e
    then nonce_error
    else gas_price_error

abbrev pub error_of : Option Text → Option SendError
unfolding send_error
error_of none = none
error_of (some e) = some (send_error e)

-- The answer of `resendTx`.
pub record Resent : Type 0 where
  pub attempt : SendAttempt
  pub error : Option SendError

-- `prevAttempts.at(-1)`
abbrev pub last : SendAttempt → List SendAttempt → SendAttempt
last a [] = a
last a (b ∷ rest) = last b rest

-- the `txDesc` and `extraData` that `resendTx` builds
abbrev pub resend_request : SendAttempt → SendTx
resend_request a = record {
  tx_desc = record empty_config {
    to = a.extra_data.to;
    value = a.extra_data.value;
    calldata = a.extra_data.calldata;
  };
  extra_data = some a.extra_data;
  options = record { is_resend = true; should_update_gas_price = true };
}

module _ (sign : TransactionConfig → Outcome (Text × Text)) where
  -- The call of `signTransaction` (hash and raw transaction) and the result.
  unfoldable pub signed : TransactionConfig → Outcome Prepared
  unfolding ◌>>=◌
  signed tx = sign tx >>= λ s.
      ok (record { raw_transaction = s.1; attempt = record { tx_hash = s.0; extra_data = tx } })

  -- the branch of `prepareTx` for a re-send, which leaves the state
  unfoldable pub prepare_resend :
      EvmTxManagerConfig → TransactionConfig → GasPriceValue → Outcome Prepared
  unfolding signed spread update_and_bump_gas_price
  prepare_resend c tx price = elim tx.nonce [
    | none ↦ throws (error "Nonce should be set for re-send")
    | some n ↦ signed (spread tx (price_fields (update_and_bump_gas_price c tx price)))
  ]

  -- the branch of `prepareTx` for a new transaction, which takes the next nonce
  unfoldable pub prepare_new :
      EvmTxManager → TransactionConfig → GasPriceValue → EvmTxManager × Outcome Prepared
  unfolding signed spread
  prepare_new m tx price = (
    record m { nonce = suc m.nonce; stored_nonce = suc m.nonce },
    signed (
        spread
          (spread (record empty_config { nonce = some m.nonce; chain_id = some m.chain_id }) tx)
          (price_fields price)),
  )

  -- `prepareTx`; `fetched` is what the price source answers
  unfoldable pub prepare_tx :
      EvmTxManagerConfig
      → Outcome GasPriceValue
      → EvmTxManager
      → SendTx
      → EvmTxManager × Outcome Prepared
  unfolding requested priced prepare_resend prepare_new
  prepare_tx c fetched m t =
      let tx = requested t in
      let (m', price) = priced c m fetched t.options.should_update_gas_price in
      if t.options.is_resend then (m', prepare_resend c tx price) else prepare_new m' tx price

  -- `resendTx`; `answer` is the error that the node answers with
  unfoldable pub resend_tx :
      EvmTxManagerConfig
      → Outcome GasPriceValue
      → (Text → Option Text)
      → EvmTxManager
      → List SendAttempt
      → EvmTxManager × Outcome Resent
  unfolding prepare_tx send_failure send_error ◌>>=◌
  resend_tx c fetched answer m [] = (m, throws (error "No previous attempts"))
  resend_tx c fetched answer m (a ∷ attempts) =
      let (m', prepared) = prepare_tx c fetched m (resend_request (last a attempts)) in
      (
        m',
        prepared >>= λ p. ok (record {
          attempt = p.attempt;
          error = error_of (send_failure (answer p.raw_transaction));
        }),
      )

-- The receipt of `getTransactionReceipt`; a pending one has no block number.
pub record Receipt : Type 0 where
  pub transaction_hash : Text
  pub status : Bool
  pub block_number : Option ℕ

-- `TxInfo`
pub record TxInfo : Type 0 where
  pub tx_hash : Text
  pub success : Bool
  pub block_number : ℕ

-- `if (tx && tx.blockNumber) return ...`
unfoldable pub mined_info : Option Receipt → Option TxInfo
mined_info none = none
mined_info (some r) = elim r.block_number [
  | none ↦ none
  | some zero ↦ none
  | some (suc n) ↦
      some (record { tx_hash = r.transaction_hash; success = r.status; block_number = suc n })
]

-- The loop of `confirmTx` over the first `i` hashes, from the last of them on.
unfoldable pub confirm_from :
    (Text → Outcome (Option Receipt)) → List Text → ℕ → Outcome (Option TxInfo × Bool)
unfolding mined_info ◌>>=◌
confirm_from receipt tx_hashes zero = ok (none, false)
confirm_from receipt tx_hashes (suc i) =
    let rest = confirm_from receipt tx_hashes i in
    elim (get_elem? tx_hashes i) [
      | none ↦ rest
      | some tx_hash ↦ receipt tx_hash >>= λ tx. elim (mined_info tx) [
        | none ↦ rest
        | some info ↦ ok (some info, false)
      ]
    ]

-- `confirmTx`
unfoldable pub confirm_tx :
    (Text → Outcome (Option Receipt)) → List Text → Outcome (Option TxInfo × Bool)
unfolding confirm_from
confirm_tx receipt tx_hashes = confirm_from receipt tx_hashes (length tx_hashes)
