-- ===== src/Fee/PriceFeed.antt =====
-- zp-relayer/lib/price-feed: the feed of the native token, and OneInchPriceFeed. Amounts and rates are
-- not negative; the contracts answer as parameters.
use native.Mathlib.Nat.{div-mul-le_self, div-lt_iff_lt-mul, one-le-pow, lt-suc_self}
use zeropool_relayer.Base.{
  ℕ, suc, ◌*◌, ◌/◌, ◌^◌, ◌≤◌, ◌<◌, ◌≡◌, refl, Bool, true, false, ◌⊎◌, text_eq_sound, Text, text_eq,
  [], ◌∷◌, Option, none, some, Outcome, ok, throws, error, ◌>>=◌, if◌then◌else◌, Bool-cases,
  >>=-eq-ok, inl, inr, arith,
}
use zeropool_relayer.Watching.Commitments.{zero_address}

-- `NativePriceFeed`: its rate, and its conversion
abbrev pub native_rate : Outcome ℕ
native_rate = ok 1

abbrev pub convert_native : ℕ → ℕ → ℕ
convert_native rate base_token_amount = base_token_amount

-- `baseTokenDecimals` is undefined before `init`.
pub record OneInchPriceFeed : Type 0 where
  pub base_token_address : Text
  pub pool_token_address : Text
  pub base_token_decimals : Option ℕ

-- The constructor; an empty address of a base token counts as none.
unfoldable pub new_one_inch : Text → Option Text → OneInchPriceFeed
new_one_inch pool_token custom = record {
  base_token_address = elim custom [
    | none ↦ zero_address
    | some t ↦ elim t [ [] ↦ zero_address | c ∷ s ↦ c ∷ s ]
  ];
  pool_token_address = pool_token;
  base_token_decimals = none;
}

-- `init` and `getContractDecimals`, on the answer of a token's `decimals`
unfoldable pub init_feed : (Text → Outcome ℕ) → OneInchPriceFeed → Outcome OneInchPriceFeed
unfolding ◌>>=◌
init_feed decimals feed =
    if text_eq feed.base_token_address zero_address
    then ok (record feed { base_token_decimals = some (10 ^ 18) })
    else decimals feed.base_token_address >>= λ d.
        ok (record feed { base_token_decimals = some (10 ^ d) })

-- `getRate`, on the answer of the oracle's `getRate`
unfoldable pub get_rate : (Text → Text → Bool → Outcome ℕ) → OneInchPriceFeed → Outcome ℕ
get_rate oracle feed = oracle feed.base_token_address feed.pool_token_address true

-- `convert`; without the decimals, the division throws
unfoldable pub convert_amount : OneInchPriceFeed → ℕ → ℕ → Outcome ℕ
convert_amount feed rate base_token_amount = elim feed.base_token_decimals [
  | none ↦ throws (error "base token decimals")
  | some d ↦ ok (base_token_amount * rate / d)
]

-- the decimals are a power of ten
HasDecimals : OneInchPriceFeed → ℕ → Type 0
HasDecimals feed d = feed.base_token_decimals ≡ some (10 ^ d)

-- The decimals of a feed's base token: 18 for the native one, else what the token answers.
abbrev pub Decimals : (Text → Outcome ℕ) → OneInchPriceFeed → ℕ → Type 0
Decimals decimals feed d =
    ((feed.base_token_address ≡ zero_address) × (d ≡ 18))
    ⊎ ((text_eq feed.base_token_address zero_address ≡ false)
        × (decimals feed.base_token_address ≡ ok d))

init_feed-HasDecimals :
    (decimals : Text → Outcome ℕ) (feed ready : OneInchPriceFeed)
    → init_feed decimals feed ≡ ok ready
    → (d : ℕ) × HasDecimals ready d × Decimals decimals feed d
unfolding init_feed HasDecimals
init_feed-HasDecimals decimals feed ready built =
    elim (Bool-cases (text_eq feed.base_token_address zero_address)) [
      | inl native ↦
          (18, decimals_of (rw (native, init_feed) at built), inl (text_eq_sound _ _ native, refl))
      | inr token ↦
          let (d, e, f) =
            >>=-eq-ok (decimals feed.base_token_address)
              (λ d. ok (record feed { base_token_decimals = some (10 ^ d) }))
              (rw (token, init_feed) at built) in
          (d, decimals_of f, inr (token, e))
    ]
  where
    decimals_of :
        {a b : OneInchPriceFeed} → ok a ≡ ok b → b.base_token_decimals ≡ a.base_token_decimals
    decimals_of e = cc

-- A feed whose `init` succeeded converts every amount at every rate: the result is the amount times the
-- rate, divided by 10 to the power of the base token's decimals, and rounded down. The decimals are 18
-- where the base token is the native one, and otherwise those that the token's contract answers.
pub init-convert_amount :
    (decimals : Text → Outcome ℕ) (feed ready : OneInchPriceFeed) (rate amount : ℕ)
    → init_feed decimals feed ≡ ok ready
    → (d converted : ℕ) × Decimals decimals feed d
      × (convert_amount ready rate amount ≡ ok converted)
      × (converted * 10 ^ d ≤ amount * rate)
      × (amount * rate < suc converted * 10 ^ d)
unfolding convert_amount HasDecimals
init-convert_amount decimals feed ready rate amount built =
    let (d, known, token) = init_feed-HasDecimals decimals feed ready built in
    let positive : 0 < 10 ^ d = one-le-pow d 10 (omega arith) in
    (
      d,
      amount * rate / 10 ^ d,
      token,
      (rw known refl),
      div-mul-le_self (amount * rate) (10 ^ d),
      (div-lt_iff_lt-mul positive).0 (lt-suc_self (amount * rate / 10 ^ d)),
    )
