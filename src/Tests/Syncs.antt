-- ===== src/Tests/Syncs.antt =====
-- The theorems on synchronisation and on the ledger of the default pool.
use zeropool_relayer.Base.{
  ℕ, ◌≤◌, ◌<◌, ◌≡◌, refl, false, Text, String, codes, ap, ◌≢◌, [], ◌∷◌, none, some, ok, Option,
  Outcome, throws, error, Failure, arith, ◌>>=◌,
}
use zeropool_relayer.Calldata.{build_normal_tx}
use zeropool_relayer.Numerals.Positional.{positional}
use zeropool_relayer.Pool.Default.Sending.{on_confirmed, on_failed}
use zeropool_relayer.Pool.Types.{Proof, PoolTx, Delta, ProcessResult}
use zeropool_relayer.State.Services.{simple_storage, function_set}
use zeropool_relayer.State.PoolState.{get_merkle_root, get_next_index, get_db_tx}
use zeropool_relayer.Sync.{
  BasePool, Chain, both_states, add_tx_to_state, propagate_optimistic_state,
}
use zeropool_relayer.Sync.Rounds.{Sources, SyncOptions, sync_state, sync_to}
use zeropool_relayer.Sync.Confirmed.{Built, add_tx_to_state-on_confirmed}
use zeropool_relayer.Sync.Outcomes.{sync_state_agrees, sync_state_wipes}
use zeropool_relayer.State.Rollback.{Wiped}
use zeropool_relayer.Sync.Ends.{sync_to_waits}
use zeropool_relayer.Sync.Propagate.{IsStored, Propagated, propagate_optimistic_state_lem}
use zeropool_relayer.Sync.Ahead.{start, next, failed, IsAhead, Reach-IsAhead}
use zeropool_relayer.Tests.Data.{one, no_delta, proof, tx, state, sent_result}
use zeropool_relayer.Tests.Formats.{fits, one_fits, coordinates, reads, memo, hex_to_number}

abbrev tree_proof : Text → Outcome (Proof × ℕ)
tree_proof o = ok (proof, 0)

abbrev no_deltas : Text → Delta
no_deltas d = no_delta

abbrev selectors : String → Text
selectors f = codes "0xaf989083"

abbrev short_tx : PoolTx
short_tx = record tx { memo = memo }

abbrev built : Outcome ProcessResult
built = build_normal_tx positional no_deltas selectors tree_proof short_tx

-- The result of a build that returned.
abbrev result_or : Outcome ProcessResult → ProcessResult
result_or (ok p) = p
result_or (throws e) = sent_result

result : ProcessResult
result = result_or built

abbrev chain : Chain
chain = record {
  hex_to_number = hex_to_number;
  get_tx_calldata = λ h. ok result.calldata;
  decode_parameters = λ types input. throws (error "no deposits");
}

is_built : built ≡ ok result
unfolding build_normal_tx ◌>>=◌ result
is_built = refl

abbrev pool : BasePool simple_storage function_set
pool = record { state = state 0; optimistic = state 128; last_confirmed_tx_block = 3 }

one-Built :
    Built positional simple_storage function_set chain no_deltas selectors tree_proof short_tx one
      one one proof one 0
unfolding positional
one-Built = record {
  first = 0 ∷ [];
  last = one;
  inputs = refl;
  proved = refl;
  root = refl;
  fits = fits;
  root_fits = one_fits;
  tree_fits = coordinates;
  nullifier_digits = refl;
  commit_digits = refl;
  selector = refl;
}

add_tx_to_state-on_confirmed_example :
    (after : BasePool simple_storage function_set) × (add_tx_to_state positional simple_storage
        function_set chain one 128 [] both_states 7 pool
      ≡ ok after)
    × (after.state
        ≡ (on_confirmed positional simple_storage function_set (state 0) (state 128) result one).0)
add_tx_to_state-on_confirmed_example =
    add_tx_to_state-on_confirmed positional simple_storage function_set chain no_deltas selectors
      tree_proof short_tx b'1' [] one one proof one 0 result one [] 7 pool (state 128) one-Built
      reads is_built refl

-- A node that knows one direct deposit, and a contract with its event.
abbrev deposit_chain : Chain
deposit_chain = record {
  hex_to_number = hex_to_number;
  get_tx_calldata = λ h. ok (codes "0xe6b14272");
  decode_parameters = λ types input. ok (λ i. one);
}

abbrev sources : Sources
sources = record {
  fetch = λ call url offset limit. throws (error "no indexer");
  get_events = λ from last.
      ok (record { tx_hash = one; index = 128; message = codes "0xab"; block_number = 9 } ∷ []);
}

abbrev options : SyncOptions
options = record { start_block = some 5; last_block = some 9; indexer_url = none }

abbrev behind : BasePool simple_storage function_set
behind = record { state = state 0; optimistic = state 0; last_confirmed_tx_block = 3 }

abbrev root_at : ℕ → Outcome Text
root_at i = ok (i ∷ [])

abbrev pool_or :
    Option (BasePool simple_storage function_set × Outcome (Unit {0}))
    → BasePool simple_storage function_set
pool_or none = behind
pool_or (some (q, done)) = q

synced : BasePool simple_storage function_set
unfolding sync_state
synced = pool_or (
    sync_state positional simple_storage function_set deposit_chain sources (ok 128) root_at 2 1
      options behind)

is_synced :
    sync_state positional simple_storage function_set deposit_chain sources
      (ok 128)
      root_at
      2
      1
      options
      behind
    ≡ some (synced, ok tt)
unfolding sync_state synced ◌>>=◌
is_synced = refl

sync_state_agrees_example :
    (i : ℕ) × (root : Text) × (◌≡◌ {A = Outcome ℕ} (ok 128) (ok i))
    × (root_at i ≡ ok root)
    × (get_merkle_root simple_storage function_set synced.state ≡ root)
    × (i ≤ get_next_index simple_storage function_set synced.state)
sync_state_agrees_example =
    sync_state_agrees positional simple_storage function_set deposit_chain sources (ok 128) root_at
      2 1 options behind synced is_synced

abbrev other_root : ℕ → Outcome Text
other_root i = ok (codes "5")

first_code : Text → ℕ
first_code [] = 0
first_code (c ∷ t) = c

differs : get_merkle_root simple_storage function_set (state 0) ≢ codes "5"
unfolding get_merkle_root first_code
differs e = absurd (omega (arith, ap first_code e))

sync_state_wipes_example :
    (q : BasePool simple_storage function_set) × (e : Failure) × (sync_state positional
        simple_storage function_set chain sources
        (ok 0)
        other_root
        1
        1
        options
        pool
      ≡ some (q, throws e))
    × Wiped simple_storage function_set pool.state q.state
    × Wiped simple_storage function_set pool.optimistic q.optimistic
    × (q.last_confirmed_tx_block ≡ 0)
sync_state_wipes_example =
    sync_state_wipes positional simple_storage function_set chain sources 0 (codes "5") other_root 0
      1 options pool refl (omega arith) differs

-- An indexer without transactions, and a contract that has one.
abbrev empty_indexer : Sources
empty_indexer = record { fetch = λ call url offset limit. ok []; get_events = λ start last. ok [] }

abbrev from_indexer : SyncOptions
from_indexer = record { start_block = none; last_block = none; indexer_url = some one }

sync_to_waits_example :
    sync_to positional simple_storage function_set chain empty_indexer 5 1 from_indexer 128
      (codes "5")
      behind
    ≡ none
unfolding get_next_index
sync_to_waits_example =
    sync_to_waits positional simple_storage function_set chain empty_indexer 5 0 from_indexer one
      (codes "5") 128 behind (omega arith) refl (λ call offset. refl)

-- An optimistic state with one transaction.
abbrev ahead : BasePool simple_storage function_set
ahead = record {
  state = state 0;
  optimistic = record {
    tree = (128, λ i. []);
    txs = λ i. some (codes "ab");
    nullifiers = λ s. false;
  };
  last_confirmed_tx_block = 3;
}

stored :
    (k : ℕ)
    → 0 ≤ k
    → k < 1
    → IsStored positional simple_storage function_set hex_to_number ahead.optimistic k
unfolding get_db_tx
stored k low high = (b'a', b'b' ∷ [], refl)

propagate_optimistic_state_lem_example :
    let result =
      propagate_optimistic_state positional simple_storage function_set hex_to_number 128 7 ahead in
    (result.1 ≡ ok tt)
    × Propagated positional simple_storage function_set hex_to_number ahead 1 7 result.0
propagate_optimistic_state_lem_example =
    propagate_optimistic_state_lem positional simple_storage function_set hex_to_number ahead 1 7
      (unfold get_next_index in omega arith) (unfold get_next_index in stored)

Reach-IsAhead_example : IsAhead positional simple_storage function_set chain sources (record ahead {
  optimistic = on_failed positional simple_storage function_set ahead.optimistic ahead.state;
})
Reach-IsAhead_example =
    Reach-IsAhead positional simple_storage function_set chain sources {p = ahead}
      (unfold get_next_index in omega arith) (next start failed)
