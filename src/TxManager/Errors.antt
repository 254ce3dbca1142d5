-- ===== src/TxManager/Errors.antt =====
-- zp-relayer/utils/web3Errors.ts: the classes of errors that a node answers with.
use zeropool_relayer.Base.{Bool, ◌||◌, Text, codes, starts_with, to_lower_case, [], ◌∷◌}

-- message.includes(part)
unfoldable pub has_part : Text → Text → Bool
unfolding starts_with
has_part [] part = starts_with part []
has_part (c ∷ s) part = starts_with part (c ∷ s) || has_part s part

abbrev pub has_lower : Text → Text → Bool
unfolding has_part to_lower_case
has_lower message part = has_part (to_lower_case message) part

-- `isGasPriceError`
unfoldable pub is_gas_price_error : Text → Bool
is_gas_price_error e = has_lower e (codes "replacement transaction underpriced")

-- `isSameTransactionError`
unfoldable pub is_same_transaction_error : Text → Bool
is_same_transaction_error e =
    has_lower e (codes "transaction with the same hash was already imported")
    || has_lower e (codes "already known")
    || has_lower e (codes "alreadyknown")
    || has_lower e (codes "transaction already imported")

-- `isNonceError`
unfoldable pub is_nonce_error : Text → Bool
is_nonce_error e =
    has_lower e (codes "transaction nonce is too low")
    || has_lower e (codes "nonce too low")
    || has_lower e (codes "transaction with same nonce in the queue")
    || has_lower e (codes "oldnonce")
    || has_lower e (codes "the tx doesn't have the correct nonce")

-- `isInsufficientBalanceError`
unfoldable pub is_insufficient_balance_error : Text → Bool
is_insufficient_balance_error e = has_lower e (codes "insufficient funds")
