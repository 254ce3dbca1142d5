-- ===== src/Fee.antt =====
-- zp-relayer/lib/fee: fee options, the fee managers and their cache. Fees are not negative.
pub mod Dynamic
pub mod Bounds
pub mod Calldata
pub mod PriceFeed
use zeropool_relayer.Base.{
  ℕ, ◌*◌, ◌/◌, ◌+◌, max, Bool, true, false, Option, none, some, Outcome, ok, throws, ◌>>=◌,
  if◌then◌else◌,
}
use zeropool_relayer.Helpers.Denominator.{apply_to_magnitude, flip255}
use zeropool_relayer.Gas.{GasPriceValue, get_max_required_gas_price}

-- `FeeOptions`, over the keys of its fees
pub record FeeOptions (K : Type 0) : Type 0 where
  pub fees : K → ℕ
  pub min_fees : Option (K → ℕ)

module _ {K : Type 0} where
  -- `mapI`
  unfoldable pub map_i : (ℕ → K → ℕ) → FeeOptions K → FeeOptions K
  map_i f o = record o { fees = λ k. f (o.fees k) k }

  -- `applyFactor`
  unfoldable pub apply_factor : ℕ → FeeOptions K → FeeOptions K
  unfolding map_i
  apply_factor factor o = map_i (λ p k. p * factor / 100) o

  -- `denominate`
  unfoldable pub denominate : ℕ → FeeOptions K → FeeOptions K
  unfolding map_i flip255
  denominate denominator o = map_i (λ p k. apply_to_magnitude p (flip255 denominator)) o

  -- `convert`; the rate and the price feed's `convert` at that rate, or the error of `getRate`
  unfoldable pub convert : Outcome (ℕ → ℕ) → FeeOptions K → Outcome (FeeOptions K)
  unfolding map_i ◌>>=◌
  convert price_feed o = price_feed >>= λ rate. ok (map_i (λ p k. rate p) o)

  -- `applyMinBound`
  unfoldable pub apply_min_bound : FeeOptions K → FeeOptions K
  unfolding map_i
  apply_min_bound o = elim o.min_fees [
    | none ↦ o
    | some min_fees ↦ map_i (λ p k. max p (min_fees k)) o
  ]

-- `executionFee`
unfoldable pub execution_fee : GasPriceValue → ℕ → ℕ
unfolding get_max_required_gas_price
execution_fee gas_price gas_limit = get_max_required_gas_price gas_price * gas_limit

-- `IFeeManagerConfig`, with the price feed's answer
pub record FeeManagerConfig : Type 0 where
  pub price_feed : Outcome (ℕ → ℕ)
  pub scale_factor : ℕ
  pub margin_factor : ℕ

module _ {K : Type 0} (c : FeeManagerConfig) where
  -- `fetchFeeOptions`, on the answer of `_fetchFeeOptions`
  unfoldable pub fetch_fee_options : Outcome (FeeOptions K) → Outcome (FeeOptions K)
  unfolding convert apply_factor ◌>>=◌
  fetch_fee_options fetched = fetched >>= λ fee_options.
      convert c.price_feed fee_options >>= λ converted. ok (apply_factor c.scale_factor converted)

  -- the update that `start` repeats: the new cached options
  unfoldable pub update_cache :
      Outcome (FeeOptions K) → Option (FeeOptions K) → Option (FeeOptions K)
  unfolding fetch_fee_options
  update_cache fetched cached = elim (fetch_fee_options fetched) [
    | ok fee_options ↦ some fee_options
    | throws e ↦ cached
  ]

  -- the `try` and `catch` of `getFeeOptions`
  unfoldable pub fetched_or_cached :
      Outcome (FeeOptions K) → Option (FeeOptions K) → Outcome (FeeOptions K)
  unfolding fetch_fee_options
  fetched_or_cached fetched cached = elim (fetch_fee_options fetched) [
    | ok fee_options ↦ ok fee_options
    | throws e ↦ elim cached [ none ↦ throws e | some fee_options ↦ ok fee_options ]
  ]

  -- `getFeeOptions`; a clone of the cache is its value
  unfoldable pub get_fee_options :
      Outcome (FeeOptions K) → Option (FeeOptions K) → Bool → Outcome (FeeOptions K)
  unfolding fetched_or_cached apply_min_bound ◌>>=◌
  get_fee_options fetched (some fee_options) true = ok fee_options
  get_fee_options fetched none true =
      fetched_or_cached fetched none >>= λ fee_options. ok (apply_min_bound fee_options)
  get_fee_options fetched cached false =
      fetched_or_cached fetched cached >>= λ fee_options. ok (apply_min_bound fee_options)

  -- `estimateFee`, on the manager's own `_estimateFee`
  unfoldable pub estimate_fee :
      (FeeOptions K → ℕ) → Outcome (FeeOptions K) → Option (FeeOptions K) → Outcome ℕ
  unfolding get_fee_options ◌>>=◌
  estimate_fee estimate fetched cached =
      get_fee_options fetched cached false >>= λ fees. ok (estimate fees * c.margin_factor / 100)
