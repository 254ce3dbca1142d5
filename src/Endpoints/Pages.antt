-- ===== src/Endpoints/Pages.antt =====
-- The page of the indexer: first confirmed transactions, then optimistic ones, without a gap.
use zeropool_relayer.Base.{
  ℕ, ◌+◌, ◌-◌, ◌*◌, ◌/◌, Text, codes, List, length, map, Option, none, some,
}
use zeropool_relayer.Helpers.Hex.{tx_to_v2_format}
use zeropool_relayer.State.Services.{Storage, RedisSet}
use zeropool_relayer.State.PoolState.{PoolState, get_transactions}

abbrev pub option_map : (Text → Text) → Option Text → Option Text
option_map f none = none
option_map f (some x) = some (f x)

module _ (st : Storage) (r : RedisSet) where
  module _ (state optimistic : PoolState st r) (limit offset : ℕ) where
    -- How many transactions of the page are confirmed.
    abbrev pub confirmed : ℕ
    confirmed = length (get_transactions st r state limit offset).0

    abbrev start : ℕ
    start = offset / 128 * 128

    -- the optimistic part
    abbrev rest : List Text
    rest = (get_transactions st r optimistic (limit - confirmed) (start + confirmed * 128)).0

    -- the confirmed part, in the format of the page
    abbrev head : List Text
    head = map (tx_to_v2_format (codes "1")) (get_transactions st r state limit offset).0
