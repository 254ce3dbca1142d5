-- ===== src/TxManager/Tron.antt =====
-- zp-relayer/lib/network/tron/TronTxManager.ts, over a node that answers. `resendTx` and
-- `waitingForFunds` throw and `init` does nothing.
use zeropool_relayer.Base.{
  ℕ, zero, suc, ◌≡◌, refl, Bool, false, Text, text_eq, codes, List, [], ◌∷◌, ◌++◌, length,
  length-append, drop, get_elem?, Option, none, some, Outcome, ok, ◌>>=◌, arith,
}
use zeropool_relayer.TxManager.{TxInfo}

-- What `getTransactionInfo` answers: a block number only if the transaction is mined.
pub record TronInfo : Type 0 where
  pub block_number : Option ℕ
  pub id : Text
  pub receipt_result : Text

-- The options of `triggerSmartContract`.
pub record TriggerOptions : Type 0 where
  pub fee_limit : Option ℕ
  pub call_value : ℕ
  pub raw_parameter : Text

-- The node and the signer: a transaction that calls a contract, its signed form with its id, and the
-- sending of that form.
pub record TronWeb (Object : Type 0) (Signed : Type 0) : Type 0 where
  pub get_transaction_info : Text → Outcome TronInfo
  pub trigger_smart_contract : Text → Option Text → TriggerOptions → Outcome Object
  pub sign : Object → Text → Outcome Signed
  pub tx_id : Signed → Text
  pub send_raw_transaction : Signed → Outcome (Unit {0})

get_elem?-append_length :
    {A : Type 0} (xs : List A) (x : A) → get_elem? (xs ++ (x ∷ [])) (length xs) ≡ some x
get_elem?-append_length [] x = refl
get_elem?-append_length (y ∷ xs) x = get_elem?-append_length xs x

module _ {Object Signed : Type 0} (tron_web : TronWeb Object Signed) where
  -- The loop of `confirmTx` over the first `i` hashes, from the last of them on; each pass returns.
  unfoldable pub tron_confirm_from : List Text → ℕ → Outcome (Option TxInfo × Bool)
  unfolding ◌>>=◌
  tron_confirm_from tx_hashes zero = ok (none, false)
  tron_confirm_from tx_hashes (suc i) = elim (get_elem? tx_hashes i) [
    | none ↦ ok (none, false)
    | some tx_hash ↦ tron_web.get_transaction_info tx_hash >>= λ info. elim info.block_number [
      | none ↦ ok (none, false)
      | some n ↦ ok (
        some (record {
          tx_hash = info.id;
          success = text_eq info.receipt_result (codes "SUCCESS");
          block_number = n;
        }),
        false,
      )
    ]
  ]

  -- `confirmTx`
  unfoldable pub tron_confirm_tx : List Text → Outcome (Option TxInfo × Bool)
  unfolding tron_confirm_from
  tron_confirm_tx tx_hashes = tron_confirm_from tx_hashes (length tx_hashes)

  -- `prepareTx`: the signed transaction and the hash of its attempt
  unfoldable pub tron_prepare_tx :
      Text → Text → ℕ → Text → Option ℕ → Option Text → Outcome (Signed × Text)
  unfolding ◌>>=◌
  tron_prepare_tx pk to value calldata max_fee_limit func =
      tron_web.trigger_smart_contract to func
        (record { fee_limit = max_fee_limit; call_value = value; raw_parameter = drop 10 calldata })
      >>= λ tx_object.
          tron_web.sign tx_object pk >>= λ signed_tx. ok (signed_tx, tron_web.tx_id signed_tx)

  -- `sendPreparedTx`
  unfoldable pub tron_send_prepared_tx : Signed × Text → Outcome (Signed × Text)
  unfolding ◌>>=◌
  tron_send_prepared_tx prepared = tron_web.send_raw_transaction prepared.0 >>= λ _. ok prepared

  -- `sendTx`
  unfoldable pub tron_send_tx :
      Text → Text → ℕ → Text → Option ℕ → Option Text → Outcome (Signed × Text)
  unfolding tron_prepare_tx tron_send_prepared_tx ◌>>=◌
  tron_send_tx pk to value calldata max_fee_limit func =
      tron_prepare_tx pk to value calldata max_fee_limit func >>= tron_send_prepared_tx

  -- The receipt of the last attempt alone decides: the earlier hashes are never asked for.
  tron_confirm_tx_last :
      (tx_hashes : List Text) (tx_hash : Text)
      → tron_confirm_tx (tx_hashes ++ (tx_hash ∷ [])) ≡ tron_confirm_tx (tx_hash ∷ [])
  unfolding tron_confirm_tx
  tron_confirm_tx_last tx_hashes tx_hash =
      let size : length (tx_hashes ++ (tx_hash ∷ [])) ≡ suc (length tx_hashes) =
        omega (arith, length-append tx_hashes (tx_hash ∷ [])) in
      rw (size, tron_confirm_from, get_elem?-append_length tx_hashes tx_hash) refl
