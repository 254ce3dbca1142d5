-- ===== src/Tests/Caches.antt =====
-- The theorems on the local cache of the relay pool and on its observer.
use zeropool_relayer.Base.{
  ◌+◌, zero, suc, sym, ◌∙◌, ℕ, ◌<◌, ◌^◌, ◌≡◌, refl, true, false, Text, text_eq, codes, replicate,
  [], ◌∷◌, length, none, some, ok, if◌then◌else◌, arith, ◌>>=◌, Bool-cases, inl, inr,
}
use zeropool_relayer.Cache.{entry_text, get, add, get_all, stored_tx}
use zeropool_relayer.Cache.Hash.{pair_hash, lookup}
use zeropool_relayer.Cache.Laws.{ParsesHex, get-add}
use zeropool_relayer.Cache.Observer.{
  Round, indexer_commitments, observe_from, observe_round, local_cache_observer_worker,
}
use zeropool_relayer.Cache.Observer.Rounds.{remaining, observe_round_lem}
use zeropool_relayer.Cache.Observer.Ends.{AddsStale, Answers, Stale, observer_ends}
use zeropool_relayer.Cache.Relay.{
  RelayPool, on_send, on_failed, cache_tx_locally, on_send-on_failed,
}
use zeropool_relayer.Cache.Relay.Finds.{observe_round-cache_tx_locally}
use zeropool_relayer.Helpers.Hex.{build_prefixed_memo, tx_to_v2_format}
use zeropool_relayer.Helpers.TxTypes.{truncate_hex_prefix}
use zeropool_relayer.Numerals.Positional.{positional}
use zeropool_relayer.Numerals.Value.{value}
use zeropool_relayer.State.Nullifiers.{is_in_set}
use zeropool_relayer.State.Services.{simple_storage, function_set}
use zeropool_relayer.Tests.Data.{one, tx, sent_result, state}
use zeropool_relayer.Workers.{PoolJob, sent, reverted}

abbrev parse_hex : Text → ℕ
parse_hex s = value 16 s

parses : ParsesHex parse_hex
parses s h = refl

none_listed : lookup [] one ≡ none
unfolding lookup
none_listed = refl

-- A cache of one transaction, stored at time 5.
cached : pair_hash.Hash
cached = ((one, codes "000000000005ab") ∷ [], (none_listed, tt))

get-add_example :
    get pair_hash parse_hex (add positional pair_hash cached one (codes "cd") 7) one ≡ (
      if text_eq one one
      then some (record { memo = codes "cd"; timestamp = 7 })
      else get pair_hash parse_hex cached one)
get-add_example =
    get-add positional pair_hash parse_hex cached one (codes "cd") 7 one parses (omega arith)

-- The indexer at a time more than a day later, without transactions.
abbrev round : Round
round = record { indexer_info = ok 0; indexer_txs = λ offset limit. ok []; now = 90000000 }

commitments :
    indexer_commitments positional parse_hex round 0 (length (get_all pair_hash parse_hex cached))
    ≡ ok []
unfolding indexer_commitments ◌>>=◌
commitments = refl

observe_round_lem_example :
    pair_hash.hget (observe_round positional parse_hex pair_hash round 0 cached) one
    ≡ remaining positional parse_hex pair_hash [] 90000000 one (pair_hash.hget cached one)
observe_round_lem_example =
    observe_round_lem positional parse_hex pair_hash round 0 cached [] one commitments

some-injective : {x y : Text} → some x ≡ some y → x ≡ y
some-injective e = cc

none_ne_some : {t : Text} → none ≡ some t → ⊥
none_ne_some e = cc

expired : (stored_tx parse_hex (codes "000000000005ab")).timestamp + 86400000 < 90000000
unfolding stored_tx value
expired = omega arith

stale : Stale positional parse_hex pair_hash 90000000 cached
unfolding lookup cached
stale k t e = elim (Bool-cases (text_eq one k)) [
  | inl f ↦ rw (← some-injective (rw (f, lookup) at e)) expired
  | inr f ↦ absurd (none_ne_some (rw (f, lookup) at e))
]

answers : Answers positional parse_hex pair_hash round (observe_from 0)
answers = (0, refl, λ limit. ([], refl))

-- Another transaction, sent at time 7 after the first round.
abbrev late_text : Text
late_text = codes "000000000007ab"

late_expired : (stored_tx parse_hex late_text).timestamp + 86400000 < 90000000
unfolding stored_tx value
late_expired = omega arith

sends : ℕ → pair_hash.Hash → pair_hash.Hash
sends zero s = pair_hash.hset s (codes "2") late_text
sends (suc i) s = s

sends-AddsStale : (j : ℕ) → j < 1 → AddsStale positional parse_hex pair_hash 90000000 (sends j)
unfolding sends
sends-AddsStale zero l s k t e = elim (Bool-cases (text_eq (codes "2") k)) [
  | inl f ↦ inr (
      rw (← some-injective (rw f at (sym (pair_hash.hget-hset s (codes "2") late_text k) ∙ e)))
        late_expired)
  | inr f ↦ inl (rw f at (sym (pair_hash.hget-hset s (codes "2") late_text k) ∙ e))
]
sends-AddsStale (suc j) l s k t e = absurd (omega arith)

observer_ends_example :
    (local_cache_observer_worker positional parse_hex pair_hash (λ n. round) sends 3 0 cached).1
    ≡ true
unfolding sends
observer_ends_example =
    observer_ends positional parse_hex pair_hash (λ n. round) sends 1 0 cached answers stale
      sends-AddsStale (λ s k t e. e)

abbrev pool : RelayPool positional simple_storage function_set pair_hash
pool = record { state = state 0; optimistic = state 0; tx_store = cached }

abbrev job : PoolJob
job = record { tx = tx; state = sent; tx_hash = none; failed_reason = none }

on_send-on_failed_example :
    let after =
      on_failed positional simple_storage function_set pair_hash one
        (some job)
        (on_send positional simple_storage function_set pair_hash
          (ok 0)
          9
          pool
          sent_result
          one).0 in
    (pair_hash.hget after.0.tx_store one
      ≡ (if text_eq one one then none else pair_hash.hget cached one))
    × (is_in_set function_set after.0.optimistic.nullifiers one ≡ false)
    × (after.1 ≡ some (record job { state = reverted; tx_hash = some one }))
on_send-on_failed_example =
    on_send-on_failed positional simple_storage function_set pair_hash 0 9 pool sent_result job one
      one one one refl

one_fits : positional.of_dec one < 16 ^ 64
unfolding positional
one_fits = omega arith

hash_width : length (truncate_hex_prefix (replicate 64 b'a')) ≡ 64
unfolding truncate_hex_prefix
hash_width = refl

one_plain : positional.to_dec (positional.of_dec one) ≡ one
unfolding positional
one_plain = refl

-- The indexer with the transaction that was sent.
abbrev sent_text : Text
sent_text =
    tx_to_v2_format (b'0' ∷ [])
      (build_prefixed_memo positional one (replicate 64 b'a') (codes "ab"))

abbrev indexed_round : Round
indexed_round = record {
  indexer_info = ok 128;
  indexer_txs = λ offset limit. ok (sent_text ∷ []);
  now = 9;
}

observe_round-cache_tx_locally_example :
    let cached_now =
      cache_tx_locally positional simple_storage function_set pair_hash cached one
        (replicate 64 b'a')
        (codes "ab")
        9 in
    (pair_hash.hget cached_now one
      ≡ some (
          entry_text positional
            (build_prefixed_memo positional one (replicate 64 b'a') (codes "ab"))
            9))
    × (pair_hash.hget (observe_round positional parse_hex pair_hash indexed_round 0 cached_now) one
        ≡ none)
observe_round-cache_tx_locally_example =
    observe_round-cache_tx_locally positional simple_storage function_set pair_hash parse_hex cached
      one (replicate 64 b'a') (codes "ab") 9 indexed_round 0 128 b'0' [] [] parses one_fits
      one_plain hash_width refl (λ limit. refl)
