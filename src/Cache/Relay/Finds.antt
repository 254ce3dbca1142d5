-- ===== src/Cache/Relay/Finds.antt =====
-- What the observer does with a transaction that `cacheTxLocally` has put into the cache.
use zeropool_relayer.Base.{
  ℕ, ◌^◌, ◌<◌, ◌≡◌, refl, ◌∙◌, Bool, true, false, ◌||◌, Text, text_eq, text_eq_refl, includes, List,
  [], ◌∷◌, ◌++◌, map, length, none, some, ok, >>=-of-ok,
}
use zeropool_relayer.Cache.{add, entry_text}
use zeropool_relayer.Cache.Hash.{RedisHash}
use zeropool_relayer.Cache.Laws.{ParsesHex}
use zeropool_relayer.Cache.Observer.{Round, indexer_commitment, indexer_commitments, observe_round}
use zeropool_relayer.Cache.Observer.Rounds.{observe_round_lem}
use zeropool_relayer.Cache.Relay.{cache_tx_locally, indexer_commitment-cached}
use zeropool_relayer.Helpers.Hex.{build_prefixed_memo, tx_to_v2_format}
use zeropool_relayer.Helpers.TxTypes.{truncate_hex_prefix}
use zeropool_relayer.Numerals.{Numerals}
use zeropool_relayer.State.Services.{Storage, RedisSet}

or_true : (b : Bool) → b || true ≡ true
or_true true = refl
or_true false = refl

includes-map_found :
    (f : Text → Text) (before after : List Text) (x k : Text)
    → f x ≡ k
    → includes (map f (before ++ (x ∷ after))) k ≡ true
unfolding includes
includes-map_found f [] after x k e = rw (e, text_eq_refl k) refl
includes-map_found f (y ∷ before) after x k e =
    rw (includes-map_found f before after x k e) (or_true (text_eq (f y) k))

module _ (num : Numerals) (st : Storage) (r : RedisSet) (h : RedisHash) (parse_hex : Text → ℕ) where
  hget-cache_tx_locally_same :
      (s : h.Hash) (commit tx_hash memo : Text) (now : ℕ)
      → h.hget (cache_tx_locally num st r h s commit tx_hash memo now) commit
        ≡ some (entry_text num (build_prefixed_memo num commit tx_hash memo) now)
  unfolding cache_tx_locally add
  hget-cache_tx_locally_same s commit tx_hash memo now =
      h.hget-hset s commit _ commit ∙ rw (text_eq_refl commit) refl

  -- A transaction that is cached stands in the cache under its commitment, and the next round of the
  -- observer removes it once the indexer's answer holds it in the indexer's format, in whatever state
  -- and place: for a hash of 64 digits and a commitment that fits 64 and is in plain decimal digits.
  pub observe_round-cache_tx_locally :
      (s : h.Hash) (commit tx_hash memo : Text) (now : ℕ) (round : Round)
      (from_index index prefix : ℕ) (before after : List Text)
      → ParsesHex parse_hex
      → num.of_dec commit < 16 ^ 64
      → num.to_dec (num.of_dec commit) ≡ commit
      → length (truncate_hex_prefix tx_hash) ≡ 64
      → round.indexer_info ≡ ok index
      → ((limit : ℕ)
          → round.indexer_txs from_index limit
            ≡ ok (
                before
                ++ (tx_to_v2_format (prefix ∷ []) (build_prefixed_memo num commit tx_hash memo)
                    ∷ after)))
      → let cached = cache_tx_locally num st r h s commit tx_hash memo now in
        (h.hget cached commit
          ≡ some (entry_text num (build_prefixed_memo num commit tx_hash memo) now))
        × (h.hget (observe_round num parse_hex h round from_index cached) commit ≡ none)
  unfolding indexer_commitments
  observe_round-cache_tx_locally s commit tx_hash memo now round from_index index prefix before
        after parses small plain full info page =
      let cached = cache_tx_locally num st r h s commit tx_hash memo now in
      let held = hget-cache_tx_locally_same s commit tx_hash memo now in
      let txs =
        before
        ++ (tx_to_v2_format (prefix ∷ []) (build_prefixed_memo num commit tx_hash memo) ∷ after) in
      let same =
        indexer_commitment-cached num parse_hex prefix commit tx_hash memo parses small full
        ∙ plain in
      let listed =
        includes-map_found (indexer_commitment num parse_hex) before after
          (tx_to_v2_format (prefix ∷ []) (build_prefixed_memo num commit tx_hash memo)) commit
          same in
      let answered =
        >>=-of-ok round.indexer_info _ index info
          (>>=-of-ok (round.indexer_txs from_index _) _ txs (page _) refl) in
      (
        held,
        observe_round_lem num parse_hex h round from_index cached
              (map (indexer_commitment num parse_hex) txs) commit answered
            ∙ rw (held, listed) refl,
      )
