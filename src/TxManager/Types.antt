-- ===== src/TxManager/Types.antt =====
-- The types of zp-relayer/lib/network/types.ts and of zp-relayer/lib/network/evm/EvmTxManager.ts, and
-- `getGasPriceValue` of zp-relayer/lib/gas-price/GasPrice.ts.
use zeropool_relayer.Base.{ℕ, Bool, Text, Option, none, some}
use zeropool_relayer.Gas.{GasPriceValue, legacy, eip1559, GasPrice}

-- `TransactionConfig` of web3-core: a field is absent or defined.
pub record TransactionConfig : Type 0 where
  pub to : Option Text
  pub value : Option ℕ
  pub calldata : Option Text
  pub gas : Option ℕ
  pub nonce : Option ℕ
  pub chain_id : Option ℕ
  pub gas_price : Option ℕ
  pub max_fee_per_gas : Option ℕ
  pub max_priority_fee_per_gas : Option ℕ

abbrev pub empty_config : TransactionConfig
empty_config = record {
  to = none;
  value = none;
  calldata = none;
  gas = none;
  nonce = none;
  chain_id = none;
  gas_price = none;
  max_fee_per_gas = none;
  max_priority_fee_per_gas = none;
}

-- A field of `{ ...a, ...b }`.
abbrev pub override {ℓ} : {A : Type ℓ} → Option A → Option A → Option A
override a none = a
override a (some b) = some b

-- `{ ...a, ...b }`
unfoldable pub spread : TransactionConfig → TransactionConfig → TransactionConfig
spread a b = record {
  to = override a.to b.to;
  value = override a.value b.value;
  calldata = override a.calldata b.calldata;
  gas = override a.gas b.gas;
  nonce = override a.nonce b.nonce;
  chain_id = override a.chain_id b.chain_id;
  gas_price = override a.gas_price b.gas_price;
  max_fee_per_gas = override a.max_fee_per_gas b.max_fee_per_gas;
  max_priority_fee_per_gas = override a.max_priority_fee_per_gas b.max_priority_fee_per_gas;
}

-- The fields of a `GasPriceValue`, for `{ ...newGasPrice }`.
abbrev pub price_fields : GasPriceValue → TransactionConfig
price_fields (legacy p) = record empty_config { gas_price = some p }
price_fields (eip1559 m p) = record empty_config {
  max_fee_per_gas = some m;
  max_priority_fee_per_gas = some p;
}

-- `getGasPriceValue`
unfoldable pub get_gas_price_value : TransactionConfig → Option GasPriceValue
get_gas_price_value tx = elim tx.gas_price [
  | some p ↦ some (legacy p)
  | none ↦ elim tx.max_fee_per_gas [
    | none ↦ none
    | some m ↦ elim tx.max_priority_fee_per_gas [ none ↦ none | some p ↦ some (eip1559 m p) ]
  ]
]

-- `EvmTxManagerConfig`: the factors as scalings (see Gas), no scaling for the factor 0
pub record EvmTxManagerConfig : Type 0 where
  pub gas_price_bump : Option (ℕ → ℕ)
  pub gas_price_surplus : Option (ℕ → ℕ)
  pub gas_price_max_fee_limit : Option ℕ

-- The state of `EvmTxManager`, with the nonce that Redis keeps.
pub record EvmTxManager : Type 0 where
  pub nonce : ℕ
  pub chain_id : ℕ
  pub gas_price : GasPrice
  pub stored_nonce : ℕ

pub record TxOptions : Type 0 where
  pub is_resend : Bool
  pub should_update_gas_price : Bool

pub record SendTx : Type 0 where
  pub tx_desc : TransactionConfig
  pub extra_data : Option TransactionConfig
  pub options : TxOptions

pub record SendAttempt : Type 0 where
  pub tx_hash : Text
  pub extra_data : TransactionConfig

-- `PreparedTx` and the attempt that comes with it
pub record Prepared : Type 0 where
  pub raw_transaction : Text
  pub attempt : SendAttempt
