-- ===== src/Cache/Observer.antt =====
-- `localCacheObserverWorker` of zp-relayer/pool/RelayPool.ts: it drops the cached transactions that the
-- indexer knows, and those that are a day old.
pub mod Rounds
pub mod Ends
use zeropool_relayer.Base.{
  ℕ, zero, suc, ◌+◌, ◌-◌, ◌*◌, ◌/◌, ◌≡◌, ◌<◌, refl, sym, ◌∙◌, max, Bool, true, false, ◌||◌, ◌&&◌,
  Bool-cases, Option-cases, inl, inr, Text, text_eq, text_eq_refl, text_eq_sound, includes, slice,
  List, [], ◌∷◌, map, length, All, Option, none, some, Outcome, ok, throws, ◌>>=◌, ltb,
  if◌then◌else◌, arith,
}
use zeropool_relayer.Cache.{StoredTx, stored_tx, stored_all, get, get_all, remove}
use zeropool_relayer.Cache.Hash.{RedisHash, lookup}
use zeropool_relayer.Numerals.{Numerals}
use zeropool_relayer.State.PoolState.{out_plus_one}

-- `EXPIRATION_MS`, 24 hours
abbrev pub expiration_ms : ℕ
expiration_ms = 86400000

-- The indexer as one round meets it, `/info` (its `optimisticDeltaIndex`) and `/transactions/v2` from
-- an offset with a limit, and the clock.
pub record Round : Type 0 where
  pub indexer_info : Outcome ℕ
  pub indexer_txs : ℕ → ℕ → Outcome (List Text)
  pub now : ℕ

-- `fromIndex`, moved back by `OFFSET_MARGIN`
unfoldable pub observe_from : ℕ → ℕ
observe_from from_index = from_index - 10 * out_plus_one

-- `Date.now() - timestamp > EXPIRATION_MS`
unfoldable pub is_expired : ℕ → StoredTx → Bool
is_expired now tx = ltb (tx.timestamp + expiration_ms) now

module _ (num : Numerals) (parse_hex : Text → ℕ) where
  -- the commitment of a transaction in the indexer's format, in decimal digits
  unfoldable pub indexer_commitment : Text → Text
  indexer_commitment tx = num.to_dec (parse_hex (slice 65 129 tx))

  -- `indexerCommitments`; the limit is for indices in steps of 128
  unfoldable pub indexer_commitments : Round → ℕ → ℕ → Outcome (List Text)
  unfolding indexer_commitment ◌>>=◌
  indexer_commitments round from_index entries = round.indexer_info >>= λ optimistic_index.
      round.indexer_txs from_index ((optimistic_index - from_index) / out_plus_one + entries + 10)
      >>= λ txs. ok (map indexer_commitment txs)

  module _ (h : RedisHash) where
    -- the loop over the cached entries
    unfoldable pub observe_entries : List Text → ℕ → List (Text × StoredTx) → h.Hash → h.Hash
    unfolding includes is_expired remove
    observe_entries indexed now [] s = s
    observe_entries indexed now ((commit, tx) ∷ es) s = observe_entries indexed now es (
        if includes indexed commit
        then remove h s commit
        else if is_expired now tx
        then remove h s commit
        else s)

    -- one round of `while (true)` on a cache that is not empty; an error is only logged
    unfoldable pub observe_round : Round → ℕ → h.Hash → h.Hash
    unfolding indexer_commitments observe_entries get_all
    observe_round round from_index s =
        elim (indexer_commitments round from_index (length (get_all h parse_hex s))) [
          | ok indexed ↦ observe_entries indexed round.now (get_all h parse_hex s) s
          | throws e ↦ s
        ]

    -- The worker, with fuel: the cache that its last round left, and whether it ended. The i-th round
    -- meets the indexer and the clock `rounds i`, and `sends i` is what `onSend` and `onFailed` do to
    -- the cache between that round and the next.
    unfoldable pub observe_loop :
        (ℕ → Round) → (ℕ → h.Hash → h.Hash) → ℕ → ℕ → ℕ → h.Hash → h.Hash × Bool
    unfolding get_all observe_round
    observe_loop rounds sends from_index zero i s = (s, false)
    observe_loop rounds sends from_index (suc fuel) i s = elim (get_all h parse_hex s) [
      | [] ↦ (s, true)
      | e ∷ es ↦
          observe_loop rounds sends from_index fuel (suc i)
            (sends i (observe_round (rounds i) from_index s))
    ]

    -- `localCacheObserverWorker`
    unfoldable pub local_cache_observer_worker :
        (ℕ → Round) → (ℕ → h.Hash → h.Hash) → ℕ → ℕ → h.Hash → h.Hash × Bool
    unfolding observe_loop observe_from
    local_cache_observer_worker rounds sends fuel from_index s =
        observe_loop rounds sends (observe_from from_index) fuel 0 s
