-- ===== src/Sync/Rounds.antt =====
-- `syncState`, `syncStateFromIndexer`, `fetchTransactionsFromIndexer` and `syncStateFromContract` of
-- zp-relayer/pool/BasePool.ts.
use zeropool_relayer.Base.{
  ℕ, zero, suc, ◌+◌, ◌*◌, ◌/◌, max, Bool, true, false, ◌&&◌, Text, codes, text_eq, slice, drop,
  ◌++◌, List, [], ◌∷◌, length, Option, none, some, Outcome, ok, throws, error, ◌>>=◌, ltb, leb,
  ◌==◌, if◌then◌else◌,
}
use zeropool_relayer.Numerals.{Numerals}
use zeropool_relayer.State.Services.{Storage, RedisSet}
use zeropool_relayer.State.PoolState.{
  out_plus_one, add_commitment, get_next_index, get_merkle_root, wipe,
}
use zeropool_relayer.Sync.{BasePool, Chain, both_states, optimistic_only, add_tx_to_state}

-- A transaction in the answer of the indexer.
pub record IndexerTx : Type 0 where
  pub is_mined : Bool
  pub tx_hash : Text
  pub commitment : Text
  pub index : ℕ
  pub memo : Text

-- The parts of one text of the answer: a flag, the hash, the commitment and the memo.
unfoldable pub indexer_tx : ℕ → ℕ → Text → IndexerTx
unfolding text_eq
indexer_tx offset tx_idx tx = record {
  is_mined = text_eq (slice 0 1 tx) (codes "1");
  tx_hash = codes "0x" ++ slice 1 65 tx;
  commitment = slice 65 129 tx;
  index = offset + tx_idx * out_plus_one;
  memo = drop 129 tx;
}

abbrev pub indexer_txs : ℕ → ℕ → List Text → List IndexerTx
indexer_txs offset tx_idx [] = []
indexer_txs offset tx_idx (tx ∷ txs) =
    indexer_tx offset tx_idx tx ∷ indexer_txs offset (suc tx_idx) txs

-- An event `Message` of the pool's contract.
pub record Event : Type 0 where
  pub tx_hash : Text
  pub index : ℕ
  pub message : Text
  pub block_number : ℕ

-- Where a synchronisation gets its transactions: the page that the indexer gives to its n-th request,
-- from an offset and with a limit, and the events of the contract in a range of blocks.
pub record Sources : Type 0 where
  pub fetch : ℕ → Text → ℕ → ℕ → Outcome (List Text)
  pub get_events : ℕ → ℕ → Outcome (List Event)

-- The arguments of `syncState`.
pub record SyncOptions : Type 0 where
  pub start_block : Option ℕ
  pub last_block : Option ℕ
  pub indexer_url : Option Text

-- An absent or empty text, and an absent block or block 0, count as false.
abbrev pub given_text : Option Text → Option Text
given_text none = none
given_text (some []) = none
given_text (some (c ∷ t)) = some (c ∷ t)

abbrev pub given_block : Option ℕ → Option ℕ
given_block none = none
given_block (some zero) = none
given_block (some (suc n)) = some (suc n)

abbrev given_blocks : SyncOptions → Option (ℕ × ℕ)
given_blocks o = elim (given_block o.start_block) [
  | none ↦ none
  | some start ↦ elim (given_block o.last_block) [ none ↦ none | some last ↦ some (start, last) ]
]

-- The contract's index, and its root there. At index 0 the source asks for the index once more; the
-- answer is taken to be the same.
unfoldable pub contract_info : Outcome ℕ → (ℕ → Outcome Text) → Outcome (ℕ × Text)
unfolding ◌>>=◌
contract_info index root_at = index >>= λ i. root_at i >>= λ root. ok (i, root)

-- `fetchTransactionsFromIndexer`
unfoldable pub fetch_transactions_from_indexer :
    Sources → ℕ → Text → ℕ → ℕ → Outcome (List IndexerTx)
unfolding indexer_tx ◌>>=◌
fetch_transactions_from_indexer sources call url offset limit =
    sources.fetch call url offset limit >>= λ txs. ok (indexer_txs offset 0 txs)

module _ (num : Numerals) (st : Storage) (r : RedisSet) (chain : Chain) (sources : Sources) where
  -- the loop over a page
  unfoldable pub add_page : List IndexerTx → ℕ → BasePool st r → BasePool st r
  unfolding add_commitment
  add_page [] commit_index p = p
  add_page (tx ∷ txs) commit_index p =
      let out_commit = num.to_dec (chain.hex_to_number (codes "0x" ++ tx.commitment)) in
      let o = add_commitment st r p.optimistic commit_index out_commit in
      let s = add_commitment st r p.state commit_index out_commit in
      add_page txs (suc commit_index) (
        if tx.is_mined then record p { optimistic = o; state = s } else record p { optimistic = o })

  -- `do … while (txs.length !== 0)`, with fuel; `none` means that it ran out
  unfoldable pub indexer_loop :
      Text → ℕ → ℕ → ℕ → ℕ → BasePool st r → Option (BasePool st r × Outcome (Unit {0}))
  unfolding fetch_transactions_from_indexer add_page get_next_index
  indexer_loop url zero call offset commit_index p = none
  indexer_loop url (suc fuel) call offset commit_index p =
      elim (fetch_transactions_from_indexer sources call url offset 200) [
        | throws e ↦ some (p, throws e)
        | ok txs ↦ elim txs [
          | [] ↦ some (p, ok tt)
          | tx ∷ rest ↦
              let q = add_page (tx ∷ rest) commit_index p in
              indexer_loop url fuel (suc call) (get_next_index st r q.optimistic)
                (commit_index + length (tx ∷ rest)) q
        ]
      ]

  -- the loop over the events, one of which may throw
  unfoldable pub add_events : ℕ → List Event → BasePool st r → BasePool st r × Outcome (Unit {0})
  unfolding add_tx_to_state
  add_events contract_index [] p = (p, ok tt)
  add_events contract_index (e ∷ es) p =
      elim (add_tx_to_state num st r chain e.tx_hash e.index e.message
        (if leb e.index contract_index then both_states else optimistic_only) e.block_number p) [
          | throws x ↦ (p, throws x)
          | ok q ↦ add_events contract_index es q
        ]

  -- `syncStateFromIndexer`, the requests numbered from `call` on
  unfoldable pub sync_state_from_indexer :
      ℕ → ℕ → Text → BasePool st r → Option (BasePool st r × Outcome (Unit {0}))
  unfolding indexer_loop get_next_index
  sync_state_from_indexer fuel call url p =
      let offset = get_next_index st r p.state in
      indexer_loop url fuel call offset (offset / out_plus_one) p

  -- `syncStateFromContract`
  unfoldable pub sync_state_from_contract :
      ℕ → ℕ → ℕ → ℕ → BasePool st r → BasePool st r × Outcome (Unit {0})
  unfolding add_events
  sync_state_from_contract start_block last_block contract_index local_index p =
      if ltb contract_index local_index
      then (p, throws (error "State is corrupted, contract index is less than local index"))
      else elim (sources.get_events start_block last_block) [
        | throws e ↦ (p, throws e)
        | ok events ↦ add_events contract_index events p
      ]

  -- the body of `while (localIndex < contractIndex)`
  unfoldable pub sync_round :
      ℕ → ℕ → SyncOptions → ℕ → BasePool st r → Option (BasePool st r × Outcome (Unit {0}))
  unfolding sync_state_from_indexer sync_state_from_contract get_next_index
  sync_round fuel call options contract_index p = elim (given_text options.indexer_url) [
    | some url ↦ sync_state_from_indexer fuel call url p
    | none ↦ elim (given_blocks options) [
      | some (start, last) ↦ some (
          sync_state_from_contract (max start p.last_confirmed_tx_block) last contract_index
            (get_next_index st r p.state) p)
      | none ↦
          some (p, throws (error "Either (startBlock, lastBlock) or indexerUrl should be provided"))
    ]
  ]

  -- The loop itself, with fuel for its rounds; `none` means that fuel ran out.
  unfoldable pub sync_loop :
      ℕ → ℕ → ℕ → SyncOptions → ℕ → BasePool st r → Option (BasePool st r × Outcome (Unit {0}))
  unfolding sync_round get_next_index
  sync_loop zero fuel call options contract_index p = none
  sync_loop (suc rounds) fuel call options contract_index p =
      elim (ltb (get_next_index st r p.state) contract_index) [
        | false ↦ some (p, ok tt)
        | true ↦ elim (sync_round fuel call options contract_index p) [
          | none ↦ none
          | some (q, done) ↦ elim done [
            | throws e ↦ some (q, throws e)
            | ok u ↦ sync_loop rounds fuel (call + fuel) options contract_index q
          ]
        ]
      ]

  -- both states wiped, and `setLastConfirmedTxBlockForced(0)`
  unfoldable pub wipe_all : BasePool st r → BasePool st r
  unfolding wipe
  wipe_all p = record {
    state = wipe st r p.state;
    optimistic = wipe st r p.optimistic;
    last_confirmed_tx_block = 0;
  }

  -- the comparison of the roots at the end
  unfoldable pub compare_roots : Text → BasePool st r → BasePool st r × Outcome (Unit {0})
  unfolding get_merkle_root wipe_all text_eq
  compare_roots contract_root p =
      if text_eq (get_merkle_root st r p.state) contract_root
      then (p, ok tt)
      else (wipe_all p, throws (error "State is corrupted, roots mismatch. State was wiped"))

  -- `syncState`, after the calls of the contract for its index and the root there
  unfoldable pub sync_to :
      ℕ → ℕ → SyncOptions → ℕ → Text → BasePool st r → Option (BasePool st r × Outcome (Unit {0}))
  unfolding sync_loop compare_roots get_next_index get_merkle_root text_eq
  sync_to rounds fuel options contract_index contract_root p =
      elim (text_eq contract_root (get_merkle_root st r p.state)
        && contract_index == get_next_index st r p.state) [
          | true ↦ some (p, ok tt)
          | false ↦ elim (sync_loop rounds fuel 0 options contract_index p) [
            | none ↦ none
            | some (q, done) ↦ elim done [
              | throws e ↦ some (q, throws e)
              | ok u ↦ some (compare_roots contract_root q)
            ]
          ]
        ]

  -- `syncState`; the contract answers with its index and the root at an index, or not at all
  unfoldable pub sync_state :
      Outcome ℕ
      → (ℕ → Outcome Text)
      → ℕ
      → ℕ
      → SyncOptions
      → BasePool st r
      → Option (BasePool st r × Outcome (Unit {0}))
  unfolding sync_to contract_info
  sync_state index root_at rounds fuel options p = elim (contract_info index root_at) [
    | throws e ↦ some (p, throws e)
    | ok (i, root) ↦ sync_to rounds fuel options i root p
  ]
