-- ===== src/TxManager/Nonces.antt =====
-- The nonces that `prepareTx` gives: one after the other, none twice, and the last one kept in Redis.
use zeropool_relayer.Base.{
  ℕ, suc, ◌+◌, ◌≡◌, refl, sym, false, List, [], ◌∷◌, length, none, some, Outcome, ok, throws, ◌>>=◌,
  Text, arith, ◌∙◌, All,
}
use mathlib.Core.Path.{subst}
use zeropool_relayer.Gas.{GasPriceValue, legacy, eip1559}
use zeropool_relayer.TxManager.{
  TransactionConfig, EvmTxManager, EvmTxManagerConfig, SendTx, Prepared, prepare_tx, prepare_new,
  requested, priced, signed, spread,
}

-- A new transaction whose caller sets no nonce.
pub record IsNew (t : SendTx) : Type 0 where
  pub not_resend : t.options.is_resend ≡ false
  pub no_nonce : (requested t).nonce ≡ none

-- A prepared transaction carries the nonce.
abbrev pub Numbered : ℕ → Outcome Prepared → Type 0
Numbered n (ok p) = p.attempt.extra_data.nonce ≡ some n
Numbered n (throws e) = Unit

abbrev pub Consecutive : ℕ → List (Outcome Prepared) → Type 0
Consecutive n [] = Unit
Consecutive n (p ∷ ps) = Numbered n p × Consecutive (suc n) ps

module _ (sign : TransactionConfig → Outcome (Text × Text)) (c : EvmTxManagerConfig) where
  -- A sequence of calls of `prepareTx`, each with the answer of the price source.
  unfoldable pub prepare_all :
      EvmTxManager → List (Outcome GasPriceValue × SendTx) → EvmTxManager × List (Outcome Prepared)
  unfolding prepare_tx
  prepare_all m [] = (m, [])
  prepare_all m ((fetched, t) ∷ ts) =
      let (m', p) = prepare_tx sign c fetched m t in
      let (m'', ps) = prepare_all m' ts in (m'', p ∷ ps)

  Numbered->>= :
      (o : Outcome (Text × Text)) (tx : TransactionConfig) (n : ℕ)
      → tx.nonce ≡ some n
      → Numbered n (
          o >>= λ s.
          ok
            (record { raw_transaction = s.1; attempt = record { tx_hash = s.0; extra_data = tx } }))
  unfolding ◌>>=◌
  Numbered->>= (ok s) tx n e = e
  Numbered->>= (throws x) tx n e = tt

  Numbered-signed :
      (tx : TransactionConfig) (n : ℕ) → tx.nonce ≡ some n → Numbered n (signed sign tx)
  unfolding signed
  Numbered-signed tx n e = Numbered->>= (sign tx) tx n e

  nonce-prepare_new :
      (m : EvmTxManager) (tx : TransactionConfig) (price : GasPriceValue)
      → tx.nonce ≡ none
      → Numbered m.nonce (prepare_new sign m tx price).1
  unfolding prepare_new spread
  nonce-prepare_new m tx (legacy p) e = Numbered-signed _ m.nonce (rw e)
  nonce-prepare_new m tx (eip1559 p q) e = Numbered-signed _ m.nonce (rw e)

  new_transaction :
      (m : EvmTxManager) (fetched : Outcome GasPriceValue) (t : SendTx)
      → IsNew t
      → let (after, p) = prepare_tx sign c fetched m t in
        Numbered m.nonce p × (after.nonce ≡ suc m.nonce) × (after.stored_nonce ≡ suc m.nonce)
  unfolding prepare_tx
  new_transaction m fetched t h =
      let before = priced c m fetched t.options.should_update_gas_price in
      let numbered = nonce-prepare_new before.0 (requested t) before.1 h.no_nonce in
      rw h.not_resend (numbered, refl, refl)

  -- The nonces of new transactions are consecutive numbers from the manager's one on, so that no two
  -- of them share one, and the next one is what the manager and Redis hold at the end.
  pub prepare_all_lem :
      (m : EvmTxManager) (ts : List (Outcome GasPriceValue × SendTx))
      → m.stored_nonce ≡ m.nonce
      → All (λ t. IsNew t.1) ts
      → let (after, ps) = prepare_all m ts in
        Consecutive m.nonce ps
        × (after.nonce ≡ m.nonce + length ts)
        × (after.stored_nonce ≡ after.nonce)
  unfolding prepare_all
  prepare_all_lem m [] e h = (tt, omega arith, e)
  prepare_all_lem m ((fetched, t) ∷ ts) e (new, h) =
      let (numbered, next, stored) = new_transaction m fetched t new in
      let after = (prepare_tx sign c fetched m t).0 in
      let (rest, count, kept) = prepare_all_lem after ts (stored ∙ sym next) h in
      (
        (numbered, subst (λ n. Consecutive n (prepare_all after ts).1) next rest),
        omega (arith, count, next),
        kept,
      )
