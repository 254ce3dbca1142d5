-- ===== src/Sync/Ends.antt =====
-- When the loop of `syncState` does not end.
use zeropool_relayer.Base.{
  ℕ, zero, suc, ◌+◌, ◌<◌, ◌≡◌, refl, true, false, ◌&&◌, Text, [], none, some, ok, ltb, ◌==◌, arith,
  text_eq,
}
use zeropool_relayer.Numerals.{Numerals}
use zeropool_relayer.State.Services.{Storage, RedisSet}
use zeropool_relayer.State.PoolState.{get_next_index, get_merkle_root}
use zeropool_relayer.Sync.{BasePool, Chain}
use zeropool_relayer.Sync.Rounds.{
  Sources, SyncOptions, given_text, fetch_transactions_from_indexer, indexer_loop,
  sync_state_from_indexer, sync_round, sync_loop, sync_to,
}

module _ (num : Numerals) (st : Storage) (r : RedisSet) (chain : Chain) (sources : Sources) where
  -- The indexer answers every request with an empty page.
  abbrev pub HasNothing : Text → Type 0
  HasNothing url = (call offset : ℕ) → sources.fetch call url offset 200 ≡ ok []

  round_stays :
      (fuel call : ℕ) (options : SyncOptions) (url : Text) (i : ℕ) (p : BasePool st r)
      → given_text options.indexer_url ≡ some url
      → HasNothing url
      → sync_round num st r chain sources (suc fuel) call options i p ≡ some (p, ok tt)
  unfolding sync_round sync_state_from_indexer indexer_loop fetch_transactions_from_indexer
  round_stays fuel call options url i p given nothing =
      rw (given, sync_round, nothing call (get_next_index st r p.state), indexer_loop) refl

  loop_stays :
      (rounds fuel call : ℕ) (options : SyncOptions) (url : Text) (i : ℕ) (p : BasePool st r)
      → get_next_index st r p.state < i
      → given_text options.indexer_url ≡ some url
      → HasNothing url
      → sync_loop num st r chain sources rounds (suc fuel) call options i p ≡ none
  unfolding sync_loop
  loop_stays zero fuel call options url i p behind given nothing = refl
  loop_stays (suc rounds) fuel call options url i p behind given nothing =
      let more : ltb (get_next_index st r p.state) i ≡ true = ground arith in
      rw (more, sync_loop, round_stays fuel call options url i p given nothing)
        (loop_stays rounds fuel (call + suc fuel) options url i p behind given nothing)

  -- A synchronisation from an indexer that has no transaction, while the confirmed state is behind the
  -- contract, does not end after any number of rounds.
  pub sync_to_waits :
      (rounds fuel : ℕ) (options : SyncOptions) (url root : Text) (i : ℕ) (p : BasePool st r)
      → get_next_index st r p.state < i
      → given_text options.indexer_url ≡ some url
      → HasNothing url
      → sync_to num st r chain sources rounds (suc fuel) options i root p ≡ none
  unfolding sync_to
  sync_to_waits rounds fuel options url root i p behind given nothing =
      let apart : (text_eq root (get_merkle_root st r p.state) && i == get_next_index st r p.state)
          ≡ false =
        ground arith in
      rw (apart, sync_to, loop_stays rounds fuel 0 options url i p behind given nothing) refl
