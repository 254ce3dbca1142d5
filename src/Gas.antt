-- ===== src/Gas.antt =====
-- zp-relayer/lib/gas-price/GasPrice.ts: gas prices, their limit, their surplus and the cache.
pub mod Bounds
use zeropool_relayer.Base.{
  ℕ, ◌≤◌, ◌<◌, ◌≡◌, Bool, true, false, Option, none, some, ltb, ◌==◌, if◌then◌else◌, min, max,
  Outcome, ok, throws,
}

-- `GasPriceValue`, with numbers where the source keeps decimal texts. `isLegacyGasPrice` and
-- `isEIP1559GasPrice` tell its two shapes apart.
pub data GasPriceValue : Type 0 where
  legacy : (gas_price : ℕ) → GasPriceValue
  eip1559 : (max_fee_per_gas max_priority_fee_per_gas : ℕ) → GasPriceValue

-- `getMaxRequiredGasPrice`
unfoldable pub get_max_required_gas_price : GasPriceValue → ℕ
get_max_required_gas_price (legacy p) = p
get_max_required_gas_price (eip1559 m p) = m

-- `chooseGasPriceOptions`
unfoldable pub choose_gas_price_options : GasPriceValue → GasPriceValue → GasPriceValue
choose_gas_price_options (legacy a) (legacy b) = legacy (max a b)
choose_gas_price_options (eip1559 m p) (eip1559 n q) = eip1559 (max m n) (max p q)
choose_gas_price_options a b = b

-- `EIP1559GasPriceWithinLimit`
unfoldable pub eip1559_gas_price_within_limit : ℕ → ℕ → ℕ → GasPriceValue
eip1559_gas_price_within_limit m p limit =
    if ltb m limit then eip1559 m p else eip1559 limit (min p limit)

-- `LegacyGasPriceWithinLimit`
unfoldable pub legacy_gas_price_within_limit : ℕ → ℕ → GasPriceValue
legacy_gas_price_within_limit p limit = legacy (min p limit)

-- `gasPriceWithinLimit`
unfoldable pub gas_price_within_limit : GasPriceValue → Option ℕ → GasPriceValue
unfolding eip1559_gas_price_within_limit legacy_gas_price_within_limit
gas_price_within_limit gp none = gp
gas_price_within_limit (eip1559 m p) (some limit) = eip1559_gas_price_within_limit m p limit
gas_price_within_limit (legacy p) (some limit) = legacy_gas_price_within_limit p limit

-- `addExtraGas`; `scale` is bignumber.js' `gas * (1 + extraPercentage)`, rounded to a whole number
unfoldable pub add_extra_gas : (ℕ → ℕ) → ℕ → Option ℕ → ℕ
add_extra_gas scale gas none = scale gas
add_extra_gas scale gas (some limit) = min limit (scale gas)

-- `addExtraGasPrice`; no `scale` stands for the factor 0
unfoldable pub add_extra_gas_price : GasPriceValue → Option (ℕ → ℕ) → Option ℕ → GasPriceValue
unfolding add_extra_gas
add_extra_gas_price gp none limit = gp
add_extra_gas_price (legacy p) (some scale) limit = legacy (add_extra_gas scale p limit)
add_extra_gas_price (eip1559 m p) (some scale) limit =
    eip1559 (add_extra_gas scale m limit) (add_extra_gas scale p limit)

-- The fields of `GasPrice`.
pub record GasPrice : Type 0 where
  pub cached_gas_price : GasPriceValue
  pub default_gas_price : GasPriceValue

-- The constructor.
unfoldable pub new_gas_price : GasPriceValue → GasPrice
new_gas_price fallback = record { cached_gas_price = fallback; default_gas_price = fallback }

-- `setGasPrice`
unfoldable pub set_gas_price : GasPrice → GasPriceValue → GasPrice
set_gas_price g gp = record g { cached_gas_price = gp }

-- `getPrice`
unfoldable pub get_price : GasPrice → GasPriceValue
get_price g = g.cached_gas_price

-- the `try` and `catch` of `fetchOnce`
unfoldable pub fetched_or_chosen : GasPrice → Outcome GasPriceValue → GasPriceValue
unfolding choose_gas_price_options
fetched_or_chosen g (ok gp) = gp
fetched_or_chosen g (throws e) = choose_gas_price_options g.default_gas_price g.cached_gas_price

-- `fetchOnce`
unfoldable pub fetch_once : GasPrice → Outcome GasPriceValue → Bool → GasPrice × GasPriceValue
unfolding set_gas_price fetched_or_chosen
fetch_once g fetched should_update_cache =
    let gas_price = fetched_or_chosen g fetched in
    (if should_update_cache then set_gas_price g gas_price else g, gas_price)
