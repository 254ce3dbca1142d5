-- ===== src/Fee/Dynamic.antt =====
-- `DynamicFeeOptions` of zp-relayer/lib/fee/FeeManager.ts, and the managers of
-- DynamicFeeManager.ts, OptimismFeeManager.ts and StaticFeeManager.ts.
use zeropool_relayer.Base.{
  ℕ, ◌*◌, ◌/◌, ◌+◌, ◌-◌, ◌^◌, Bool, some, Text, List, [], ◌∷◌, length, ◌==◌, if◌then◌else◌,
}
use zeropool_relayer.Gas.{GasPriceValue}
use zeropool_relayer.Helpers.TxTypes.{TxType}
use zeropool_relayer.Fee.{FeeOptions, execution_fee}

-- `ZERO_BYTE_GAS` and `NZERO_BYTE_GAS` of utils/constants.ts
abbrev pub zero_byte_gas : ℕ
zero_byte_gas = 4

abbrev pub nzero_byte_gas : ℕ
nzero_byte_gas = 16

-- `DynamicFeeKeys`
pub data FeeKey : Type 0 where
  of_type : TxType → FeeKey
  one_byte_fee native_convert_fee : FeeKey

-- `baseTxGas` of the configuration
pub record BaseTxGas : Type 0 where
  pub of_tx : TxType → ℕ
  pub native_convert : ℕ

-- The fees of `DynamicFeeOptions.fromGasPice`.
unfoldable pub dynamic_fees : BaseTxGas → GasPriceValue → ℕ → FeeKey → ℕ
unfolding execution_fee
dynamic_fees gas gas_price one_byte (of_type t) = execution_fee gas_price (gas.of_tx t)
dynamic_fees gas gas_price one_byte one_byte_fee = one_byte
dynamic_fees gas gas_price one_byte native_convert_fee = execution_fee gas_price gas.native_convert

-- Its least fees.
unfoldable pub dynamic_min_fees : ℕ → FeeKey → ℕ
dynamic_min_fees min_fee (of_type t) = min_fee
dynamic_min_fees min_fee one_byte_fee = 0
dynamic_min_fees min_fee native_convert_fee = 0

-- `DynamicFeeOptions.fromGasPice`
unfoldable pub from_gas_price : BaseTxGas → GasPriceValue → ℕ → ℕ → FeeOptions FeeKey
unfolding dynamic_fees dynamic_min_fees
from_gas_price gas gas_price one_byte min_fee = record {
  fees = dynamic_fees gas gas_price one_byte;
  min_fees = some (dynamic_min_fees min_fee);
}

-- `_fetchFeeOptions` of `DynamicFeeManager`, on the gas price that `fetchOnce` gives
unfoldable pub dynamic_fee_options : BaseTxGas → GasPriceValue → ℕ → FeeOptions FeeKey
unfolding execution_fee from_gas_price
dynamic_fee_options gas gas_price min_fee =
    from_gas_price gas gas_price (execution_fee gas_price nzero_byte_gas) min_fee

-- `IFeeEstimateParams`
pub record FeeEstimateParams : Type 0 where
  pub tx_type : TxType
  pub native_convert : Bool
  pub tx_data : Text

-- `(txData.length >> 1) - 1`, the bytes after the prefix 0x; every caller's text has the prefix
abbrev pub calldata_len : Text → ℕ
calldata_len tx_data = length tx_data / 2 - 1

-- The sum that the managers build: a fee, and the one for a native conversion.
unfoldable pub with_native_convert : FeeEstimateParams → FeeOptions FeeKey → ℕ → ℕ
with_native_convert p o fee = if p.native_convert then fee + o.fees native_convert_fee else fee

-- `_estimateFee` of `DynamicFeeManager`
unfoldable pub dynamic_estimate : FeeEstimateParams → FeeOptions FeeKey → ℕ
unfolding with_native_convert
dynamic_estimate p o =
    with_native_convert p o
      (o.fees (of_type p.tx_type) + o.fees one_byte_fee * calldata_len p.tx_data)

-- `_estimateFee` of `StaticFeeManager`
unfoldable pub static_estimate : {K : Type 0} → ℕ → FeeOptions K → ℕ
static_estimate static_fee o = static_fee

-- The answers of the gas price oracle's contract that `init` of `OptimismFeeManager` reads.
pub record Oracle : Type 0 where
  pub overhead : ℕ
  pub decimals : ℕ
  pub scalar : ℕ

-- the `reduce` of `getL1GasUsed`
unfoldable pub bytes_gas : List ℕ → ℕ
bytes_gas [] = 0
bytes_gas (b ∷ bytes) = (if b == 0 then zero_byte_gas else nzero_byte_gas) + bytes_gas bytes

-- `getL1GasUsed`, on the bytes of the data
unfoldable pub l1_gas_used : Oracle → List ℕ → ℕ
unfolding bytes_gas
l1_gas_used oracle bytes = bytes_gas bytes + oracle.overhead

-- `getL1Fee`
unfoldable pub l1_fee : Oracle → List ℕ → ℕ → ℕ
unfolding l1_gas_used
l1_fee oracle bytes l1_base_fee =
    l1_gas_used oracle bytes * l1_base_fee * oracle.scalar / 10 ^ oracle.decimals

-- `_estimateFee` of `OptimismFeeManager`
unfoldable pub optimism_estimate :
    Oracle → (Text → List ℕ) → FeeEstimateParams → FeeOptions FeeKey → ℕ
unfolding l1_fee with_native_convert
optimism_estimate oracle hex_to_bytes p o = with_native_convert p o (
    o.fees (of_type p.tx_type)
    + l1_fee oracle (hex_to_bytes p.tx_data) (o.fees one_byte_fee) / nzero_byte_gas)

-- `_fetchFeeOptions` of `OptimismFeeManager`
unfoldable pub optimism_fee_options : BaseTxGas → GasPriceValue → ℕ → ℕ → FeeOptions FeeKey
unfolding from_gas_price
optimism_fee_options gas gas_price l1_base_fee min_fee =
    from_gas_price gas gas_price (l1_base_fee * nzero_byte_gas) min_fee
