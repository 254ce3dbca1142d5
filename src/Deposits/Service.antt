-- ===== src/Deposits/Service.antt =====
-- The service of zp-relayer/services/direct-deposit/watcher.ts: a watcher whose processor puts the
-- deposits of a batch of blocks into the cache, which validates them and hands batches to the queue of
-- direct deposits.
use zeropool_relayer.Base.{
  ℕ, suc, ◌<◌, ◌≤◌, ◌≡◌, Bool, true, false, Text, List, [], ◌∷◌, All, length, none, some, Outcome,
  ok, throws, error,
}
use zeropool_relayer.Batch.{SortedSet}
use zeropool_relayer.Batch.Processing.{BatchCache, add}
use zeropool_relayer.Deposits.{DirectDeposit, DepositServices, validate_direct_deposit}
use zeropool_relayer.Watching.{Range, WatcherConfig, Watcher, watch}

abbrev is_ok : Outcome (Unit {0}) → Bool
is_ok (ok u) = true
is_ok (throws e) = false

module _ (s : DepositServices) where
  -- whether the promise of `validate` is fulfilled
  unfoldable pub validates : DirectDeposit → Bool
  unfolding validate_direct_deposit
  validates dd = is_ok (validate_direct_deposit s dd)

-- The pairs of a nonce, as the score, and a deposit.
abbrev scored : List DirectDeposit → List (Text × DirectDeposit)
scored [] = []
scored (d ∷ ds) = (d.nonce, d) ∷ scored ds

module _ (s : DepositServices) (r : SortedSet DirectDeposit)
    (zadd : r.Members → List (Text × DirectDeposit) → r.Members) (batch_size : ℕ) where
  abbrev Cache : Type 0
  Cache = BatchCache r batch_size (validates s)

  -- A round of the watcher: the last block, the events of a range of blocks with their parsing, and the
  -- answer of Redis to an adding. A failure after the adding, between two batches, is left out.
  pub record ServiceRound : Type 0 where
    pub last_block_number : ℕ
    pub events : Range → Outcome (List DirectDeposit)
    pub redis : Range → Outcome (Unit {0})

  -- The adding of deposits; one unit of fuel for each entry of the cache, and one more.
  unfoldable pub add_deposits : List DirectDeposit → Cache → Cache × Outcome (Unit {0})
  unfolding add validates
  add_deposits ds c =
      let values = scored ds in
      elim (add r batch_size (validates s) zadd (suc (r.zcard (zadd c.members values))) values c) [
        | none ↦ (c, throws (error "out of fuel"))
        | some d ↦ (d, ok tt)
      ]

  -- The processor of the service; without deposits Redis is not asked.
  unfoldable pub processor : ServiceRound → Range → Cache → Cache × Outcome (Unit {0})
  unfolding add_deposits
  processor round b c = elim (round.events b) [
    | throws e ↦ (c, throws e)
    | ok ds ↦ elim ds [
      | [] ↦ (c, ok tt)
      | d ∷ rest ↦ elim (round.redis b) [
        | throws e ↦ (c, throws e)
        | ok u ↦ add_deposits (d ∷ rest) c
      ]
    ]
  ]

  -- `run`: the rounds of the watcher
  unfoldable pub service_rounds : WatcherConfig → List ServiceRound → Watcher Cache → Watcher Cache
  unfolding watch processor
  service_rounds config [] w = w
  service_rounds config (round ∷ rounds) w =
      service_rounds config rounds (watch (processor round) config round.last_block_number w)

  -- Every batch that the queue got holds accepted deposits, as many as the size of a batch at most.
  abbrev Sound : Cache → Type 0
  Sound c =
      All (λ b. (0 < length b) × (length b ≤ batch_size) × All (λ e. validates s e ≡ true) b)
        c.batches
