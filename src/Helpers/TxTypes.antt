-- ===== src/Helpers/TxTypes.antt =====
-- `TxType` of zp-memo-parser/memo.ts, and the memo prefixes of zp-relayer/utils/helpers.ts.
use zeropool_relayer.Base.{
  Text, codes, text_eq, starts_with, drop, ℕ, if◌then◌else◌, Outcome, ok, throws, error,
}

pub data TxType : Type 0 where
  deposit transfer withdrawal permittable_deposit : TxType

-- The values of the enum.
abbrev pub tx_type_text : TxType → Text
tx_type_text deposit = codes "0000"
tx_type_text transfer = codes "0001"
tx_type_text withdrawal = codes "0002"
tx_type_text permittable_deposit = codes "0003"

unfoldable pub truncate_hex_prefix : Text → Text
unfolding starts_with
truncate_hex_prefix s = if starts_with (codes "0x") s then drop 2 s else s

unfoldable pub tx_type_of : Text → Outcome TxType
unfolding text_eq
tx_type_of t =
    if text_eq t (codes "0000")
    then ok deposit
    else if text_eq t (codes "0001")
    then ok transfer
    else if text_eq t (codes "0002")
    then ok withdrawal
    else if text_eq t (codes "0003")
    then ok permittable_deposit
    else throws (error "incorrect tx type")

-- `toTxType`
unfoldable pub to_tx_type : Text → Outcome TxType
unfolding truncate_hex_prefix tx_type_of
to_tx_type t = tx_type_of (truncate_hex_prefix t)

-- `txTypePrefixLen`
abbrev pub tx_type_prefix_len : TxType → ℕ
tx_type_prefix_len deposit = 16
tx_type_prefix_len transfer = 16
tx_type_prefix_len withdrawal = 72
tx_type_prefix_len permittable_deposit = 72

unfoldable pub truncate_memo_tx_prefix : Text → TxType → Text
truncate_memo_tx_prefix memo tx_type = drop (tx_type_prefix_len tx_type) memo

-- `txTypePrefixLenV2`
abbrev pub tx_type_prefix_len_v2 : TxType → ℕ
tx_type_prefix_len_v2 deposit = 116
tx_type_prefix_len_v2 transfer = 116
tx_type_prefix_len_v2 withdrawal = 172
tx_type_prefix_len_v2 permittable_deposit = 172

unfoldable pub truncate_memo_tx_prefix_prover_v2 : Text → TxType → Text
truncate_memo_tx_prefix_prover_v2 memo tx_type = drop (tx_type_prefix_len_v2 tx_type) memo
