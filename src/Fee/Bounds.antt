-- ===== src/Fee/Bounds.antt =====
-- The required fee: never below the least fees, and there also when the price source fails.
use native.Mathlib.Nat.{mul-le-mul_right}
use mathlib.Core.Path.{subst}
use zeropool_relayer.Base.{
  ℕ, ◌≤◌, ◌*◌, ◌/◌, ◌≡◌, refl, Bool, true, false, Option, none, some, Failure, Outcome, ok, throws,
  ◌>>=◌, >>=-eq-ok, >>=-of-ok, Outcome-cases, arith, inl, inr,
}
use zeropool_relayer.Fee.{
  FeeOptions, FeeManagerConfig, map_i, apply_min_bound, convert, apply_factor, update_cache,
  fetch_fee_options, fetched_or_cached, get_fee_options, estimate_fee,
}
use zeropool_relayer.Fee.Dynamic.{
  FeeKey, of_type, FeeEstimateParams, dynamic_estimate, with_native_convert,
}

-- No fee is below its least fee.
abbrev pub AtLeast : {K : Type 0} → (K → ℕ) → FeeOptions K → Type 0
AtLeast {K} min o = (k : K) → min k ≤ o.fees k

-- Options whose least fees are those, if they come at all.
abbrev pub Bounded : {K : Type 0} → (K → ℕ) → Outcome (FeeOptions K) → Type 0
Bounded min (ok o) = o.min_fees ≡ some min
Bounded min (throws e) = Unit {0}

abbrev pub BoundedCache : {K : Type 0} → (K → ℕ) → Option (FeeOptions K) → Type 0
BoundedCache min (some o) = o.min_fees ≡ some min
BoundedCache min none = Unit {0}

ok-injective : {A : Type 0} {x y : A} → ok x ≡ ok y → x ≡ y
ok-injective e = cc

module _ {K : Type 0} (c : FeeManagerConfig) (min : K → ℕ) where
  AtLeast-apply_min_bound :
      (o : FeeOptions K) → o.min_fees ≡ some min → AtLeast min (apply_min_bound o)
  unfolding apply_min_bound map_i
  AtLeast-apply_min_bound o h k = rw h (omega arith)

  Bounded->>= :
      {A : Type 0} (m : Outcome A) (f : A → Outcome (FeeOptions K))
      → ((a : A) → m ≡ ok a → Bounded min (f a))
      → Bounded min (m >>= f)
  unfolding ◌>>=◌
  Bounded->>= (ok a) f h = h a refl
  Bounded->>= (throws e) f h = tt

  Bounded-is :
      (m : Outcome (FeeOptions K)) (o : FeeOptions K)
      → Bounded min m
      → m ≡ ok o
      → o.min_fees ≡ some min
  Bounded-is m o h e = subst (Bounded min) e h

  Bounded-fetch_fee_options :
      (fetched : Outcome (FeeOptions K))
      → Bounded min fetched
      → Bounded min (fetch_fee_options c fetched)
  unfolding fetch_fee_options convert apply_factor map_i
  Bounded-fetch_fee_options fetched h = Bounded->>= fetched _ λ o is_o.
      Bounded->>= (convert c.price_feed o) _ λ converted is_converted.
        Bounded-is (convert c.price_feed o) converted
          (Bounded->>= c.price_feed _ λ rate is_rate. Bounded-is fetched o h is_o) is_converted

  -- The cache keeps the least fees that the manager builds into its options.
  BoundedCache-update_cache :
      (fetched : Outcome (FeeOptions K)) (cached : Option (FeeOptions K))
      → Bounded min fetched
      → BoundedCache min cached
      → BoundedCache min (update_cache c fetched cached)
  unfolding update_cache
  BoundedCache-update_cache fetched cached h k =
      elim (Outcome-cases (fetch_fee_options c fetched)) [
        | inl (o, e) ↦ rw (e, update_cache) (Bounded-is _ o (Bounded-fetch_fee_options fetched h) e)
        | inr (x, e) ↦ rw (e, update_cache) k
      ]

  Bounded-cached :
      (cached : Option (FeeOptions K)) (e : Failure)
      → BoundedCache min cached
      → Bounded min (elim cached [ none ↦ throws e | some o ↦ ok o ])
  Bounded-cached none e h = tt
  Bounded-cached (some o) e h = h

  Bounded-fetched_or_cached :
      (fetched : Outcome (FeeOptions K)) (cached : Option (FeeOptions K))
      → Bounded min fetched
      → BoundedCache min cached
      → Bounded min (fetched_or_cached c fetched cached)
  unfolding fetched_or_cached
  Bounded-fetched_or_cached fetched cached h k =
      elim (Outcome-cases (fetch_fee_options c fetched)) [
        | inl (o, e) ↦
            rw (e, fetched_or_cached) (Bounded-is _ o (Bounded-fetch_fee_options fetched h) e)
        | inr (x, e) ↦ rw (e, fetched_or_cached) (Bounded-cached cached x k)
      ]

  -- Where the options that the manager fetches and caches carry the least fees, those that a validation
  -- asks for are at least these fees.
  pub get_fee_options-AtLeast :
      (fetched : Outcome (FeeOptions K)) (cached : Option (FeeOptions K)) (o : FeeOptions K)
      → Bounded min fetched
      → BoundedCache min cached
      → get_fee_options c fetched cached false ≡ ok o
      → AtLeast min o
  unfolding get_fee_options
  get_fee_options-AtLeast fetched cached o h k e =
      let (before, is_before, same) = >>=-eq-ok (fetched_or_cached c fetched cached) _ e in
      let bound = Bounded-is _ before (Bounded-fetched_or_cached fetched cached h k) is_before in
      subst (AtLeast min) (ok-injective same) (AtLeast-apply_min_bound before bound)

module _ {K : Type 0} (c : FeeManagerConfig) where
  -- With options in the cache, `getFeeOptions` returns whatever the price source does.
  pub get_fee_options_total :
      (fetched : Outcome (FeeOptions K)) (o : FeeOptions K) (use_cached : Bool)
      → (r : FeeOptions K) × (get_fee_options c fetched (some o) use_cached ≡ ok r)
  unfolding get_fee_options fetched_or_cached
  get_fee_options_total fetched o true = (o, refl)
  get_fee_options_total fetched o false = elim (Outcome-cases (fetch_fee_options c fetched)) [
    | inl (r, e) ↦ (
      apply_min_bound r,
      >>=-of-ok (fetched_or_cached c fetched (some o)) _ r (rw (e, fetched_or_cached)) refl,
    )
    | inr (x, e) ↦ (
      apply_min_bound o,
      >>=-of-ok (fetched_or_cached c fetched (some o)) _ o (rw (e, fetched_or_cached)) refl,
    )
  ]

module _ (c : FeeManagerConfig) (min : FeeKey → ℕ) where
  base-dynamic_estimate :
      (p : FeeEstimateParams) (o : FeeOptions FeeKey)
      → AtLeast min o
      → min (of_type p.tx_type) ≤ dynamic_estimate p o
  unfolding dynamic_estimate with_native_convert
  base-dynamic_estimate p o h = let base = h (of_type p.tx_type) in ground arith

  -- Where the options that the manager fetches and caches carry the least fees, the estimate of the
  -- dynamic manager is at least that of the type of transaction, with the margin.
  pub estimate_fee-AtLeast :
      (p : FeeEstimateParams) (fetched : Outcome (FeeOptions FeeKey))
      (cached : Option (FeeOptions FeeKey)) (fee : ℕ)
      → Bounded min fetched
      → BoundedCache min cached
      → estimate_fee c (dynamic_estimate p) fetched cached ≡ ok fee
      → min (of_type p.tx_type) * c.margin_factor / 100 ≤ fee
  unfolding estimate_fee
  estimate_fee-AtLeast p fetched cached fee h k e =
      let (o, is_o, same) = >>=-eq-ok (get_fee_options c fetched cached false) _ e in
      let bound =
        base-dynamic_estimate p o (get_fee_options-AtLeast c min fetched cached o h k is_o) in
      let scaled = mul-le-mul_right c.margin_factor bound in
      subst (λ x. min (of_type p.tx_type) * c.margin_factor / 100 ≤ x) (ok-injective same)
        (omega (arith, scaled))
