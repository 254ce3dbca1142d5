-- ===== src/Batch/Processing.antt =====
-- `processCache` and `add` of zp-relayer/services/direct-deposit/BatchCache.ts.
use zeropool_relayer.Base.{
  ℕ, zero, suc, ◌%◌, Bool, true, false, not, ◌&&◌, Text, List, [], ◌∷◌, Option, none, some, leb,
  ◌==◌, if◌then◌else◌,
}
use zeropool_relayer.Batch.{SortedSet, execute}

module _ {E : Type 0} (r : SortedSet E) (batch_size : ℕ) (validate : E → Bool) where
  -- The set, whether the timer is set, and the batches that the callback got.
  pub record BatchCache : Type 0 where
    pub members : r.Members
    pub timer : Bool
    pub batches : List (List E)

  -- `execute` with its effects; the timer is cleared
  unfoldable pub run_execute : BatchCache → Option BatchCache
  unfolding execute
  run_execute c = elim (execute r batch_size validate (suc (r.zcard c.members)) c.members) [
    | none ↦ none
    | some (none, left) ↦ some (record c { members = left; timer = false })
    | some (some batch, left) ↦
        some (record { members = left; timer = false; batches = batch ∷ c.batches })
  ]

  -- `while (count >= this.batchSize)`, with fuel; `none` means that it ran out
  unfoldable pub execute_whole : ℕ → BatchCache → Option BatchCache
  unfolding run_execute
  execute_whole zero c = none
  execute_whole (suc fuel) c = elim (leb batch_size (r.zcard c.members)) [
    | false ↦ some c
    | true ↦ elim (run_execute c) [ none ↦ none | some d ↦ execute_whole fuel d ]
  ]

  -- the timer at the end
  unfoldable pub set_timer : BatchCache → BatchCache
  set_timer c =
      if not (r.zcard c.members % batch_size == 0) && not c.timer
      then record c { timer = true }
      else c

  -- `processCache`
  unfoldable pub process_cache : ℕ → BatchCache → Option BatchCache
  unfolding execute_whole set_timer
  process_cache fuel c = elim (execute_whole fuel c) [ none ↦ none | some d ↦ some (set_timer d) ]

  -- `add`, on `ZADD`
  unfoldable pub add :
      (r.Members → List (Text × E) → r.Members)
      → ℕ
      → List (Text × E)
      → BatchCache
      → Option BatchCache
  unfolding process_cache
  add zadd fuel [] c = some c
  add zadd fuel (v ∷ vs) c = process_cache fuel (record c { members = zadd c.members (v ∷ vs) })
