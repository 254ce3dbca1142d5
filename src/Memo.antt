-- ===== src/Memo.antt =====
-- zp-memo-parser/memo.ts: the fields in front of a memo, read from its bytes at fixed offsets.
pub mod Layout
pub mod Schema
use zeropool_relayer.Base.{
  ℕ, zero, suc, ◌+◌, ◌*◌, ◌≤◌, Bool, List, [], ◌∷◌, ◌++◌, Option, none, some, length, take, drop,
  leb, if◌then◌else◌, Outcome, ok, throws, error, ◌>>=◌,
}
use zeropool_relayer.Helpers.TxTypes.{TxType, deposit, transfer, withdrawal, permittable_deposit}

-- A `Buffer`: its bytes.
abbrev pub Buffer : Type 0
Buffer = List ℕ

-- `getAddress`; `subarray` stops at the end of the buffer
unfoldable pub get_address : Buffer → ℕ → List ℕ
get_address m offset = take 20 (drop offset m)

-- The number of big-endian bytes.
unfoldable pub big_endian : ℕ → List ℕ → ℕ
big_endian acc [] = acc
big_endian acc (b ∷ bs) = big_endian (acc * 256 + b) bs

-- `readU64`; `readBigUInt64BE` throws a RangeError past the end. The decimal text that the source
-- returns is kept as its number.
unfoldable pub read_u64 : Buffer → ℕ → Outcome ℕ
unfolding big_endian
read_u64 m offset =
    if leb (offset + 8) (length m)
    then ok (big_endian 0 (take 8 (drop offset m)))
    else throws (error "ERR_OUT_OF_RANGE")

-- What the type of the transaction adds to the common fields.
pub data Extra : Type 0 where
  nothing : Extra
  withdraw_data : (native_amount : ℕ) (receiver : List ℕ) → Extra
  permit_data : (deadline : ℕ) (holder : List ℕ) → Extra

-- `TxData`
pub record TxData : Type 0 where
  pub transact_fee : ℕ
  pub extra : Extra

-- `TxDataProverV2`
pub record TxDataProverV2 : Type 0 where
  pub proxy_address : List ℕ
  pub prover_address : List ℕ
  pub transact_fee : ℕ
  pub tree_update_fee : ℕ
  pub extra : Extra

-- The tail of `getTxData` and `getTxDataProverV2`: the fields from `offset` on.
unfoldable pub get_extra : Buffer → ℕ → TxType → Outcome Extra
unfolding read_u64 get_address
get_extra m offset withdrawal = do
  native_amount ← read_u64 m offset
  ok (withdraw_data native_amount (get_address m (offset + 8)))
get_extra m offset permittable_deposit = do
  deadline ← read_u64 m offset
  ok (permit_data deadline (get_address m (offset + 8)))
get_extra m offset deposit = ok nothing
get_extra m offset transfer = ok nothing

-- `getTxData`
unfoldable pub get_tx_data : Buffer → TxType → Outcome TxData
unfolding read_u64 get_extra
get_tx_data m tx_type = do
  transact_fee ← read_u64 m 0
  extra ← get_extra m 8 tx_type
  ok (record { transact_fee = transact_fee; extra = extra })

-- `getTxDataProverV2`
unfoldable pub get_tx_data_prover_v2 : Buffer → TxType → Outcome TxDataProverV2
unfolding read_u64 get_extra get_address
get_tx_data_prover_v2 m tx_type = do
  transact_fee ← read_u64 m 40
  tree_update_fee ← read_u64 m 48
  extra ← get_extra m 56 tx_type
  ok (record {
    proxy_address = get_address m 0;
    prover_address = get_address m 20;
    transact_fee = transact_fee;
    tree_update_fee = tree_update_fee;
    extra = extra;
  })
