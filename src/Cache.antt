-- ===== src/Cache.antt =====
-- zp-relayer/state/TxStore.ts, and the local cache of zp-relayer/pool/RelayPool.ts that stands on it.
pub mod Hash
pub mod Laws
pub mod Observer
pub mod Relay
use zeropool_relayer.Base.{
  ℕ, ◌*◌, Text, List, [], ◌∷◌, ◌++◌, length, drop, slice, Option, none, some,
}
use zeropool_relayer.Cache.Hash.{RedisHash}
use zeropool_relayer.Numerals.{Numerals}

-- What `get` returns.
pub record StoredTx : Type 0 where
  pub memo : Text
  pub timestamp : ℕ

-- `TIMESTAMP_BYTES`
abbrev pub timestamp_bytes : ℕ
timestamp_bytes = 6

module _ (num : Numerals) where
  -- `numberToHexPadded` of utils/helpers.ts
  unfoldable pub number_to_hex_padded : ℕ → ℕ → Text
  number_to_hex_padded n num_bytes = num.pad_left (num.to_hex n) (num_bytes * 2)

  -- `add`, on the value that it writes
  unfoldable pub entry_text : Text → ℕ → Text
  unfolding number_to_hex_padded
  entry_text memo timestamp = number_to_hex_padded timestamp timestamp_bytes ++ memo

-- `hexToNumber` of utils/helpers.ts is `parseInt(hex, 16)`, a parameter.
unfoldable pub stored_tx : (Text → ℕ) → Text → StoredTx
stored_tx parse_hex calldata = record {
  memo = drop (timestamp_bytes * 2) calldata;
  timestamp = parse_hex (slice 0 (timestamp_bytes * 2) calldata);
}

-- The test `data ? … : null`, which fails on an empty text too.
unfoldable pub stored_of : (Text → ℕ) → Option Text → Option StoredTx
unfolding stored_tx
stored_of parse_hex none = none
stored_of parse_hex (some []) = none
stored_of parse_hex (some (c ∷ t)) = some (stored_tx parse_hex (c ∷ t))

-- The entries with their values read.
abbrev pub stored_all : (Text → ℕ) → List (Text × Text) → List (Text × StoredTx)
stored_all parse_hex [] = []
stored_all parse_hex ((commit, calldata) ∷ es) =
    (commit, stored_tx parse_hex calldata) ∷ stored_all parse_hex es

module _ (h : RedisHash) where
  -- `remove`
  unfoldable pub remove : h.Hash → Text → h.Hash
  remove s commitment = h.hdel s commitment

  -- `get`
  unfoldable pub get : (Text → ℕ) → h.Hash → Text → Option StoredTx
  unfolding stored_of
  get parse_hex s commitment = stored_of parse_hex (h.hget s commitment)

  -- `getAll`
  unfoldable pub get_all : (Text → ℕ) → h.Hash → List (Text × StoredTx)
  unfolding stored_tx
  get_all parse_hex s = stored_all parse_hex (h.hgetall s)

  unfoldable pub remove_keys : h.Hash → List (Text × Text) → h.Hash
  remove_keys s [] = s
  remove_keys s ((commitment, calldata) ∷ es) = remove_keys (h.hdel s commitment) es

  -- `removeAll`: `hdel` of all keys
  unfoldable pub remove_all : h.Hash → h.Hash
  unfolding remove_keys
  remove_all s = remove_keys s (h.hgetall s)

module _ (num : Numerals) (h : RedisHash) where
  -- `add`
  unfoldable pub add : h.Hash → Text → Text → ℕ → h.Hash
  unfolding entry_text
  add s commitment memo timestamp = h.hset s commitment (entry_text num memo timestamp)
