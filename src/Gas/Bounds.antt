-- ===== src/Gas/Bounds.antt =====
-- Bounds of gas prices: the limit, the choice of the greater price, and the fallback.
use zeropool_relayer.Base.{ℕ, ◌≤◌, ◌≡◌, refl, true, none, some, throws, Failure, arith}
use zeropool_relayer.Gas.{
  GasPriceValue, legacy, eip1559, get_max_required_gas_price, choose_gas_price_options,
  gas_price_within_limit, add_extra_gas_price, GasPrice, fetch_once, get_price,
}

-- The tip is part of the fee.
abbrev pub IsSound : GasPriceValue → Type 0
IsSound (legacy p) = Unit {0}
IsSound (eip1559 m p) = p ≤ m

-- Each field of the first is at most that of the second, of the same shape.
abbrev pub Below : GasPriceValue → GasPriceValue → Type 0
Below (legacy p) (legacy q) = p ≤ q
Below (eip1559 m p) (eip1559 n q) = (m ≤ n) × (p ≤ q)
Below a b = ⊥

abbrev pub SameKind : GasPriceValue → GasPriceValue → Type 0
SameKind (legacy p) (legacy q) = Unit {0}
SameKind (eip1559 m p) (eip1559 n q) = Unit {0}
SameKind a b = ⊥

-- A price under a limit costs no more than the limit and than before, and keeps its tip within its
-- fee.
pub gas_price_within_limit_lem :
    (gp : GasPriceValue) (limit : ℕ)
    → IsSound gp
    → (get_max_required_gas_price (gas_price_within_limit gp (some limit)) ≤ limit)
      × Below (gas_price_within_limit gp (some limit)) gp
      × IsSound (gas_price_within_limit gp (some limit))
unfolding gas_price_within_limit get_max_required_gas_price
gas_price_within_limit_lem (legacy p) limit h = (omega arith, omega arith, tt)
gas_price_within_limit_lem (eip1559 m p) limit h = ground arith

-- The choice between two prices of one kind is at least each of them.
pub choose_gas_price_options_lem :
    (a b : GasPriceValue)
    → SameKind a b
    → Below a (choose_gas_price_options a b) × Below b (choose_gas_price_options a b)
unfolding choose_gas_price_options
choose_gas_price_options_lem (legacy p) (legacy q) h = omega arith
choose_gas_price_options_lem (eip1559 m p) (eip1559 n q) h = omega arith
choose_gas_price_options_lem (legacy p) (eip1559 n q) h = absurd h
choose_gas_price_options_lem (eip1559 m p) (legacy q) h = absurd h

-- A surplus without a limit lowers no price, where scaling lowers no number.
pub add_extra_gas_price_lem :
    (gp : GasPriceValue) (scale : ℕ → ℕ)
    → ((n : ℕ) → n ≤ scale n)
    → Below gp (add_extra_gas_price gp (some scale) none)
unfolding add_extra_gas_price
add_extra_gas_price_lem (legacy p) scale h = h p
add_extra_gas_price_lem (eip1559 m p) scale h = (h m, h p)

-- A failed fetch costs nothing: the price is at least the default and the cached one, and it is what
-- the next sender reads.
pub fetch_once_failed :
    (g : GasPrice) (e : Failure)
    → SameKind g.default_gas_price g.cached_gas_price
    → let (after, gp) = fetch_once g (throws e) true in
      Below g.default_gas_price gp × Below g.cached_gas_price gp × (get_price after ≡ gp)
unfolding fetch_once get_price
fetch_once_failed g e h =
    let (below_default, below_cached) =
      choose_gas_price_options_lem g.default_gas_price g.cached_gas_price h in
    (below_default, below_cached, refl)
