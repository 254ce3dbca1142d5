-- ===== src/TxManager/Prices.antt =====
-- What a re-send keeps and what it raises: the nonce and the fields of the transaction, and the gas
-- price.
use zeropool_relayer.Base.{
  ℕ, ◌≡◌, refl, sym, true, List, ◌∷◌, Option, none, some, Outcome, Failure, ok, throws, >>=-eq-ok,
  Text, Option-cases, inl, inr, ◌∙◌,
}
use mathlib.Core.Path.{subst}
use zeropool_relayer.Gas.{
  GasPriceValue, legacy, eip1559, choose_gas_price_options, add_extra_gas_price,
}
use zeropool_relayer.Gas.Bounds.{Below, SameKind, choose_gas_price_options_lem}
use zeropool_relayer.TxManager.{
  TransactionConfig, EvmTxManager, EvmTxManagerConfig, SendAttempt, Prepared, Resent, SendError,
  prepare_tx, prepare_resend, requested, priced, signed, spread, price_fields, get_gas_price_value,
  update_and_bump_gas_price, override, resend_tx, resend_request, last,
}

-- The same transaction but for the price.
pub record Same (a b : TransactionConfig) : Type 0 where
  pub to : a.to ≡ b.to
  pub value : a.value ≡ b.value
  pub calldata : a.calldata ≡ b.calldata
  pub gas : a.gas ≡ b.gas
  pub nonce : a.nonce ≡ b.nonce
  pub chain_id : a.chain_id ≡ b.chain_id

Same-spread : (tx : TransactionConfig) (p : GasPriceValue) → Same (spread tx (price_fields p)) tx
unfolding spread
Same-spread tx (legacy p) = record {
  to = refl;
  value = refl;
  calldata = refl;
  gas = refl;
  nonce = refl;
  chain_id = refl;
}
Same-spread tx (eip1559 m p) = record {
  to = refl;
  value = refl;
  calldata = refl;
  gas = refl;
  nonce = refl;
  chain_id = refl;
}

some_legacy : {m p : ℕ} (q : ℕ) → some (legacy q) ≡ some (eip1559 m p) → ⊥
some_legacy q e = cc

no_gas_price :
    (tx : TransactionConfig) (m p : ℕ)
    → get_gas_price_value tx ≡ some (eip1559 m p)
    → tx.gas_price ≡ none
unfolding get_gas_price_value
no_gas_price tx m p h = elim (Option-cases tx.gas_price) [
  | inl e ↦ e
  | inr (q, e) ↦ absurd (some_legacy q (rw (e, get_gas_price_value) at h))
]

-- The price of a transaction that had one of the same kind is the new one.
price-spread :
    (tx : TransactionConfig) (old new : GasPriceValue)
    → get_gas_price_value tx ≡ some old
    → SameKind old new
    → get_gas_price_value (spread tx (price_fields new)) ≡ some new
unfolding spread get_gas_price_value
price-spread tx old (legacy p) h k = refl
price-spread tx (legacy q) (eip1559 m p) h k = absurd k
price-spread tx (eip1559 n q) (eip1559 m p) h k = rw (no_gas_price tx n q h)

override_self : {A : Type 0} (x : Option A) → override x x ≡ x
override_self none = refl
override_self (some a) = refl

override-none : {A : Type 0} (x : Option A) → override none x ≡ x
override-none none = refl
override-none (some a) = refl

requested-resend_request : (a : SendAttempt) → requested (resend_request a) ≡ a.extra_data
unfolding requested spread
requested-resend_request a =
    let e = a.extra_data in
    rw (
      override_self e.to,
      override_self e.value,
      override_self e.calldata,
      override-none e.gas,
      override-none e.nonce,
      override-none e.chain_id,
      override-none e.gas_price,
      override-none e.max_fee_per_gas,
      override-none e.max_priority_fee_per_gas,
    )

SameKind-choose :
    (a b c : GasPriceValue)
    → SameKind a b
    → SameKind b c
    → SameKind a (choose_gas_price_options b c)
unfolding choose_gas_price_options
SameKind-choose (legacy a) (legacy b) (legacy c) h k = tt
SameKind-choose (eip1559 a x) (eip1559 b y) (eip1559 c z) h k = tt
SameKind-choose (legacy a) (legacy b) (eip1559 c z) h k = absurd k
SameKind-choose (eip1559 a x) (eip1559 b y) (legacy c) h k = absurd k
SameKind-choose (legacy a) (eip1559 b y) c h k = absurd h
SameKind-choose (eip1559 a x) (legacy b) c h k = absurd h

SameKind-add_extra :
    (a : GasPriceValue) (scale : Option (ℕ → ℕ)) → SameKind a (add_extra_gas_price a scale none)
unfolding add_extra_gas_price
SameKind-add_extra (legacy a) none = tt
SameKind-add_extra (legacy a) (some f) = tt
SameKind-add_extra (eip1559 a x) none = tt
SameKind-add_extra (eip1559 a x) (some f) = tt

attempt_of :
    {p : Prepared} {hash raw : Text} {tx : TransactionConfig}
    → ◌≡◌ {A = Outcome Prepared}
        (ok
          (record { raw_transaction = raw; attempt = record { tx_hash = hash; extra_data = tx } }))
        (ok p)
    → p.attempt.extra_data ≡ tx
attempt_of e = cc

attempt_of_resent :
    {a : SendAttempt} {e : Option SendError} {r : Resent}
    → ◌≡◌ {A = Outcome Resent} (ok (record { attempt = a; error = e })) (ok r)
    → r.attempt.extra_data ≡ a.extra_data
attempt_of_resent e = cc

throws_not_ok : {f : Failure} {p : Prepared} → throws f ≡ ok p → ⊥
throws_not_ok e = cc

module _ (sign : TransactionConfig → Outcome (Text × Text)) (c : EvmTxManagerConfig) where
  signed-inversion :
      (tx : TransactionConfig) (p : Prepared) → signed sign tx ≡ ok p → p.attempt.extra_data ≡ tx
  unfolding signed
  signed-inversion tx p h = let (s, _, e) = >>=-eq-ok (sign tx) _ h in attempt_of e

  prepare_resend-inversion :
      (tx : TransactionConfig) (price : GasPriceValue) (p : Prepared)
      → prepare_resend sign c tx price ≡ ok p
      → p.attempt.extra_data ≡ spread tx (price_fields (update_and_bump_gas_price c tx price))
  unfolding prepare_resend
  prepare_resend-inversion tx price p h = elim (Option-cases tx.nonce) [
    | inl e ↦ absurd (throws_not_ok (rw (e, prepare_resend) at h))
    | inr (n, e) ↦ signed-inversion _ p (rw (e, prepare_resend) at h)
  ]

  resend_tx-inversion :
      (fetched : Outcome GasPriceValue) (answer : Text → Option Text) (m : EvmTxManager)
      (a : SendAttempt) (attempts : List SendAttempt) (r : Resent)
      → (resend_tx sign c fetched answer m (a ∷ attempts)).1 ≡ ok r
      → (r.attempt.extra_data
          ≡ spread (last a attempts).extra_data (
              price_fields (
                update_and_bump_gas_price c
                  (last a attempts).extra_data
                  (priced c m fetched true).1)))
  unfolding resend_tx prepare_tx
  resend_tx-inversion fetched answer m a attempts r h =
      let (p, prepared, e) =
        >>=-eq-ok (prepare_tx sign c fetched m (resend_request (last a attempts))).1 _ h in
      let before = priced c m fetched true in
      let same = requested-resend_request (last a attempts) in
      attempt_of_resent e
      ∙ prepare_resend-inversion (last a attempts).extra_data before.1 p (rw same at prepared)

  update-some :
      (tx : TransactionConfig) (old new : GasPriceValue)
      → get_gas_price_value tx ≡ some old
      → update_and_bump_gas_price c tx new
        ≡ choose_gas_price_options (add_extra_gas_price old c.gas_price_bump none) new
  unfolding update_and_bump_gas_price
  update-some tx old new e = rw (e, update_and_bump_gas_price)

  Same-rw : {a b d : TransactionConfig} → a ≡ b → Same b d → Same a d
  Same-rw {d = d} e s = subst (λ x. Same x d) (sym e) s

  -- A re-send that returns repeats the last attempt in all but the price, and takes no nonce.
  pub resend_tx_keeps :
      (fetched : Outcome GasPriceValue) (answer : Text → Option Text) (m : EvmTxManager)
      (a : SendAttempt) (attempts : List SendAttempt) (r : Resent)
      → (resend_tx sign c fetched answer m (a ∷ attempts)).1 ≡ ok r
      → let after = (resend_tx sign c fetched answer m (a ∷ attempts)).0 in
        Same r.attempt.extra_data (last a attempts).extra_data
        × (after.nonce ≡ m.nonce)
        × (after.stored_nonce ≡ m.stored_nonce)
  unfolding resend_tx prepare_tx priced
  resend_tx_keeps fetched answer m a attempts r h =
      (Same-rw (resend_tx-inversion fetched answer m a attempts r h) (Same-spread _ _), refl, refl)

  -- The price of a re-send is at least that of the last attempt with the bump, and at least the
  -- current one, where the two are of one kind.
  pub resend_tx_raises :
      (fetched : Outcome GasPriceValue) (answer : Text → Option Text) (m : EvmTxManager)
      (a : SendAttempt) (attempts : List SendAttempt) (r : Resent) (old : GasPriceValue)
      → get_gas_price_value (last a attempts).extra_data ≡ some old
      → let bumped = add_extra_gas_price old c.gas_price_bump none in
        let current = (priced c m fetched true).1 in
        SameKind bumped current
        → (resend_tx sign c fetched answer m (a ∷ attempts)).1 ≡ ok r
        → (new : GasPriceValue) × (get_gas_price_value r.attempt.extra_data ≡ some new)
          × Below bumped new
          × Below current new
  resend_tx_raises fetched answer m a attempts r old e k h =
      let tx = (last a attempts).extra_data in
      let bumped = add_extra_gas_price old c.gas_price_bump none in
      let current = (priced c m fetched true).1 in
      let (above_old, above_current) = choose_gas_price_options_lem bumped current k in
      let kind = SameKind-choose old bumped current (SameKind-add_extra old c.gas_price_bump) k in
      (
        choose_gas_price_options bumped current,
        rw (resend_tx-inversion fetched answer m a attempts r h, update-some tx old current e)
            (price-spread tx old _ e kind),
        above_old,
        above_current,
      )
