-- ===== src/Batch.antt =====
-- zp-relayer/services/direct-deposit/BatchCache.ts: `take` and `execute`.
pub mod Assembly
pub mod Processing
pub mod Batches
use zeropool_relayer.Base.{
  ℕ, zero, suc, ◌+◌, ◌-◌, ◌≡◌, Bool, true, false, ◌&&◌, List, [], ◌∷◌, ◌++◌, length, Option, none,
  some, ltb, ◌==◌, min, if◌then◌else◌,
}

-- A sorted set of Redis: `ZPOPMIN` takes the entries of the least scores, as many as asked for while
-- there are any, and `ZCARD` counts the entries.
pub record SortedSet (E : Type 0) : Type 1 where
  pub Members : Type 0
  pub zpopmin : Members → ℕ → List E × Members
  pub zcard : Members → ℕ
  pub length-zpopmin : (s : Members) (n : ℕ) → length (zpopmin s n).0 ≡ min n (zcard s)
  pub zcard-zpopmin : (s : Members) (n : ℕ) → zcard (zpopmin s n).1 ≡ zcard s - n

module _ {E : Type 0} where
  -- The entries whose validation is fulfilled.
  abbrev pub fulfilled : (E → Bool) → List E → List E
  fulfilled validate [] = []
  fulfilled validate (e ∷ es) =
      let rest = fulfilled validate es in if validate e then e ∷ rest else rest

  module _ (r : SortedSet E) (batch_size : ℕ) (validate : E → Bool) where
    -- `take`
    unfoldable pub take_entries : r.Members → ℕ → List E × r.Members
    take_entries s zero = ([], s)
    take_entries s (suc n) = r.zpopmin s (suc n)

    -- The do-while loop of `execute`, with fuel; `none` means that it ran out.
    unfoldable pub assemble : ℕ → List E → r.Members → Option (List E × r.Members)
    unfolding take_entries
    assemble zero validated s = none
    assemble (suc fuel) validated s =
        let count = batch_size - length validated in
        let (es, s') = take_entries s count in
        let validated' = validated ++ fulfilled validate es in
        let rest = assemble fuel validated' s' in
        if ltb (length validated') batch_size && count == length es
        then rest
        else some (validated', s')

    -- `execute`: the batch for the callback, which is not called for an empty one, and the set.
    unfoldable pub execute : ℕ → r.Members → Option (Option (List E) × r.Members)
    unfolding assemble
    execute fuel s = elim (assemble fuel [] s) [
      | none ↦ none
      | some ([], s') ↦ some (none, s')
      | some (e ∷ es, s') ↦ some (some (e ∷ es), s')
    ]
