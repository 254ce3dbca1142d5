-- ===== src/Tests/Fees.antt =====
-- The theorems on fees, gas prices and denominators.
use zeropool_relayer.Base.{
  none, suc, text_eq, ◌>>=◌, ◌<◌, ◌^◌, ℕ, ◌≤◌, ◌*◌, ◌/◌, ◌≡◌, refl, false, codes, some, Outcome, ok,
  throws, error,
}
use zeropool_relayer.Fee.{FeeOptions, FeeManagerConfig, get_fee_options, estimate_fee}
use zeropool_relayer.Fee.Dynamic.{
  FeeKey, BaseTxGas, FeeEstimateParams, Oracle, dynamic_fee_options, dynamic_min_fees,
  dynamic_estimate, of_type,
}
use zeropool_relayer.Fee.Bounds.{
  AtLeast, get_fee_options-AtLeast, get_fee_options_total, estimate_fee-AtLeast,
}
use zeropool_relayer.Fee.PriceFeed.{
  OneInchPriceFeed, Decimals, init_feed, convert_amount, init-convert_amount,
}
use zeropool_relayer.Gas.{legacy, GasPrice}
use zeropool_relayer.Helpers.TxTypes.{transfer}

abbrev gas : BaseTxGas
gas = record { of_tx = λ t. 100; native_convert = 10 }

abbrev manager : FeeManagerConfig
manager = record { price_feed = ok (λ p. p); scale_factor = 100; margin_factor = 110 }

abbrev options : FeeOptions FeeKey
unfolding dynamic_fee_options
options = dynamic_fee_options gas (legacy 3) 500

abbrev params : FeeEstimateParams
params = record { tx_type = transfer; native_convert = false; tx_data = codes "0xffff" }

abbrev no_options : Outcome (FeeOptions FeeKey)
no_options = throws (error "no options")

least : options.min_fees ≡ some (dynamic_min_fees 500)
unfolding options
least = refl

-- Options as `getFeeOptions` leaves them.
found : (o : FeeOptions FeeKey) × (get_fee_options manager no_options (some options) false ≡ ok o)
found = get_fee_options_total manager no_options options false

get_fee_options-AtLeast_example : AtLeast (dynamic_min_fees 500) found.0
get_fee_options-AtLeast_example =
    get_fee_options-AtLeast manager (dynamic_min_fees 500) no_options (some options) found.0 tt
      least found.1

estimated : estimate_fee manager (dynamic_estimate params) no_options (some options) ≡ ok 655
unfolding estimate_fee dynamic_estimate options
estimated = refl

estimate_fee-AtLeast_example : dynamic_min_fees 500 (of_type transfer) * 110 / 100 ≤ 655
estimate_fee-AtLeast_example =
    estimate_fee-AtLeast manager (dynamic_min_fees 500) params no_options (some options) 655 tt
      least estimated

abbrev oracle : Oracle
oracle = record { overhead = 188; decimals = 6; scalar = 684000 }

abbrev price : GasPrice
price = record { cached_gas_price = legacy 7; default_gas_price = legacy 9 }

-- A feed of a token with 6 decimals.
abbrev feed : OneInchPriceFeed
feed = record {
  base_token_address = codes "0xab";
  pool_token_address = codes "0xcd";
  base_token_decimals = none;
}

abbrev ready : OneInchPriceFeed
ready = record feed { base_token_decimals = some (10 ^ 6) }

init-convert_amount_example :
    (d converted : ℕ) × Decimals (λ t. ok 6) feed d
    × (convert_amount ready 3000000 7 ≡ ok converted)
    × (converted * 10 ^ d ≤ 7 * 3000000)
    × (7 * 3000000 < suc converted * 10 ^ d)
unfolding init_feed ◌>>=◌ text_eq
init-convert_amount_example = init-convert_amount (λ t. ok 6) feed ready 3000000 7 refl
