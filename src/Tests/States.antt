-- ===== src/Tests/States.antt =====
-- The theorems on states, pages, ids, limits and deadlines.
use mathlib.Core.Path.{subst}
use zeropool_relayer.Base.{
  pos, ◌<◌, ◌≡◌, ◌↔◌, refl, Text, codes, [], ◌∷◌, length, Option, none, some, arith, if◌then◌else◌,
  ℕ,
}
use zeropool_relayer.Numerals.Positional.{positional}
use zeropool_relayer.State.Services.{simple_storage, function_set}
use zeropool_relayer.State.PoolState.{
  get_db_tx, get_next_index, rollback_to, get_transactions, add_tx,
}
use zeropool_relayer.State.Rollback.{in_range, rollback_to_lem}
use zeropool_relayer.State.JobIds.{mapped}
use zeropool_relayer.Validation.Caps.{
  check_limits, process_limits, Fits, check_limits-process_limits,
}
use zeropool_relayer.Validation.Deadline.{
  check_deadline, deadline_bound, check_deadline_first_digit,
}
use zeropool_relayer.Tests.Data.{one, limits, state}

rollback_to_lem_example :
    (get_next_index simple_storage function_set
        (rollback_to simple_storage function_set (state 384) (state 128))
      ≡ get_next_index simple_storage function_set (state 128))
    × (get_db_tx simple_storage function_set
          (rollback_to simple_storage function_set (state 384) (state 128))
          256
        ≡ (if in_range
              (get_next_index simple_storage function_set (state 128))
              (get_next_index simple_storage function_set (state 384))
              256
            then none
            else get_db_tx simple_storage function_set (state 384) 256))
rollback_to_lem_example =
    rollback_to_lem simple_storage function_set (state 384) (state 128) 256
      (unfold get_next_index in omega arith)

paged :
    0
    < length
        (get_transactions simple_storage function_set
          (add_tx simple_storage function_set (state 256) 128 one)
          5
          130).0
unfolding get_transactions add_tx
paged = omega arith

-- A map from the id "1" to the id of one other character.
abbrev one_mapping : Text → Option Text
one_mapping [] = none
one_mapping (c ∷ []) = some (50 ∷ 50 ∷ [])
one_mapping (c ∷ d ∷ s) = none

abbrev rank : Text → ℕ
rank [] = 0
rank (c ∷ []) = 1
rank (c ∷ d ∷ s) = 0

mapping_falls : (id next : Text) → mapped one_mapping id ≡ some next → rank next < rank id
unfolding mapped
mapping_falls [] next h = cc
mapping_falls (c ∷ []) next h =
    let e : 50 ∷ 50 ∷ [] ≡ next = cc in subst (λ x. rank x < 1) e (omega arith)
mapping_falls (c ∷ d ∷ s) next h = cc

check_limits-process_limits_example :
    (check_limits limits (pos 7) ≡ none) ↔ Fits (process_limits limits) (pos 7)
check_limits-process_limits_example = check_limits-process_limits limits (pos 7) (omega arith)

same_digits : length (positional.to_dec 12) ≡ length (positional.to_dec (deadline_bound 1000 10))
unfolding positional
same_digits = refl

nine : positional.to_dec 9 ≡ codes "9"
unfolding positional
nine = refl

bound : positional.to_dec (deadline_bound 1700000000000 0) ≡ codes "1700000000"
unfolding positional
bound = refl

-- The deadline 9, at a time in the year 2023.
check_deadline_first_digit_example : check_deadline positional 1700000000000 9 0 ≡ none
check_deadline_first_digit_example =
    check_deadline_first_digit positional 1700000000000 9 0 b'9' b'1' [] (codes "700000000") nine
      bound (omega arith)
