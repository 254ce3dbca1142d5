-- ===== src/Endpoints.antt =====
-- The answers of zp-relayer/services/indexer/router.ts and of zp-relayer/services/relayer/endpoints.ts
-- that are more than one call.
pub mod Pages
pub mod Pending
use zeropool_relayer.Base.{
  ℕ, suc, ◌+◌, ◌*◌, ◌-◌, max, Bool, true, false, Text, codes, includes, List, [], ◌∷◌, ◌++◌, length,
  map, Option, none, some, Outcome, ok, throws, error, ◌>>=◌, ltb, leb, if◌then◌else◌,
}
use zeropool_relayer.Cache.{StoredTx}
use zeropool_relayer.Cache.Observer.{indexer_commitment}
use zeropool_relayer.Helpers.Hex.{tx_to_v2_format}
use zeropool_relayer.Numerals.{Numerals}
use zeropool_relayer.State.Services.{Storage, RedisSet}
use zeropool_relayer.State.PoolState.{
  PoolState, out_plus_one, get_transactions, get_merkle_root, get_merkle_root_at, get_next_index,
}

-- `relayerInfo` of the indexer
pub record IndexerInfo : Type 0 where
  pub root : Text
  pub optimistic_root : Text
  pub delta_index : ℕ
  pub optimistic_delta_index : ℕ

module _ (st : Storage) (r : RedisSet) where
  -- `getTransactionsV2` of the indexer: a page of the confirmed state, filled up from the optimistic one
  unfoldable pub indexer_page : PoolState st r → PoolState st r → ℕ → ℕ → List Text
  unfolding get_transactions tx_to_v2_format
  indexer_page state optimistic limit offset =
      let (pool_txs, next_offset) = get_transactions st r state limit offset in
      let txs = map (tx_to_v2_format (codes "1")) pool_txs in
      if ltb (length txs) limit
      then txs
        ++ map (tx_to_v2_format (codes "2"))
            (get_transactions st r optimistic (limit - length txs) next_offset).0
      else txs

  unfoldable pub indexer_info : PoolState st r → PoolState st r → IndexerInfo
  unfolding get_merkle_root get_next_index
  indexer_info state optimistic = record {
    root = get_merkle_root st r state;
    optimistic_root = get_merkle_root st r optimistic;
    delta_index = get_next_index st r state;
    optimistic_delta_index = get_next_index st r optimistic;
  }

  -- `getRoot`
  unfoldable pub get_root : PoolState st r → PoolState st r → ℕ → Option Text
  unfolding get_merkle_root_at
  get_root state optimistic index = elim (get_merkle_root_at st r state index) [
    | some root ↦ some root
    | none ↦ get_merkle_root_at st r optimistic index
  ]

  -- `getSiblings` of the relayer, on what libzkbob gives
  unfoldable pub get_siblings :
      (PoolState st r → ℕ → List Text) → PoolState st r → ℕ → Outcome (List Text)
  unfolding get_next_index
  get_siblings siblings state index =
      if leb (get_next_index st r state) index
      then throws (error "Index out of range")
      else ok (siblings state index)

-- The place of an entry in an order by time, after those of the same time.
unfoldable pub insert_by_time : Text × StoredTx → List (Text × StoredTx) → List (Text × StoredTx)
insert_by_time e [] = e ∷ []
insert_by_time e (f ∷ es) =
    let rest = insert_by_time e es in
    if ltb e.1.timestamp f.1.timestamp then e ∷ f ∷ es else f ∷ rest

-- `sort((a, b) => a[1].timestamp - b[1].timestamp)`, which keeps the order of equal times; `sorted`
-- holds the entries so far
unfoldable pub sort_from : List (Text × StoredTx) → List (Text × StoredTx) → List (Text × StoredTx)
unfolding insert_by_time
sort_from [] sorted = sorted
sort_from (e ∷ es) sorted = sort_from es (insert_by_time e sorted)

abbrev pub sort_by_time : List (Text × StoredTx) → List (Text × StoredTx)
sort_by_time es = sort_from es []

-- The loop over the local entries: those that the indexer does not have, until the page is full, with
-- the number of transactions that it has already.
unfoldable pub pending_txs : ℕ → List Text → ℕ → List (Text × StoredTx) → List Text
unfolding includes tx_to_v2_format
pending_txs limit indexed found [] = []
pending_txs limit indexed found ((commit, tx) ∷ es) =
    let skipped = pending_txs limit indexed found es in
    let rest = pending_txs limit indexed (suc found) es in
    if leb limit found
    then []
    else if includes indexed commit
    then skipped
    else tx_to_v2_format (codes "0") tx.memo ∷ rest

module _ (num : Numerals) (parse_hex : Text → ℕ) where
  -- `getTransactionsV2` of the relayer, on the answer of the indexer and the entries of the local cache
  unfoldable pub relayer_page : ℕ → List Text → List (Text × StoredTx) → List Text
  unfolding pending_txs indexer_commitment sort_from
  relayer_page limit indexer_txs entries =
      indexer_txs
      ++ pending_txs limit (map (indexer_commitment num parse_hex) indexer_txs) (length indexer_txs)
          (sort_by_time entries)

-- `pendingDeltaIndex` of `relayerInfo`: an index that the indexer does not name counts as 0
abbrev or_zero : Option ℕ → ℕ
or_zero none = 0
or_zero (some n) = n

unfoldable pub pending_delta_index : Option ℕ → Option ℕ → ℕ → ℕ
pending_delta_index delta_index optimistic_delta_index pending =
    max (or_zero delta_index) (or_zero optimistic_delta_index) + pending * out_plus_one
