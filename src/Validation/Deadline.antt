-- ===== src/Validation/Deadline.antt =====
-- `checkDeadline` of zp-relayer/validation/tx/common.ts. The source compares two `BN` objects with
-- `<=`, which JavaScript does on their decimal texts.
use zeropool_relayer.Base.{
  ℕ, ◌+◌, ◌/◌, ◌<◌, ◌≡◌, ◌↔◌, Text, ◌∷◌, length, if◌then◌else◌, leb, Option, none, some, Failure,
  tx_validation_error, arith,
}
use zeropool_relayer.Numerals.{Numerals}
use zeropool_relayer.Numerals.Value.{text_le, text_le-eq-leb}

-- The earliest second that is too late: the time now and the threshold.
abbrev pub deadline_bound : ℕ → ℕ → ℕ
deadline_bound now_ms threshold = now_ms / 1000 + threshold

unfoldable pub check_deadline : Numerals → ℕ → ℕ → ℕ → Option Failure
unfolding text_le
check_deadline num now_ms signed_deadline threshold =
    if text_le (num.to_dec signed_deadline) (num.to_dec (deadline_bound now_ms threshold))
    then some (tx_validation_error "Deadline is expired")
    else none

-- A deadline with as many decimal digits as the bound passes exactly when it is later.
pub check_deadline_iff :
    (num : Numerals) (now_ms deadline threshold : ℕ)
    → length (num.to_dec deadline) ≡ length (num.to_dec (deadline_bound now_ms threshold))
    → (check_deadline num now_ms deadline threshold ≡ none)
      ↔ (deadline_bound now_ms threshold < deadline)
unfolding check_deadline
check_deadline_iff num now_ms deadline threshold e =
    let bound = deadline_bound now_ms threshold in
    let order : text_le (num.to_dec deadline) (num.to_dec bound) ≡ leb deadline bound = rw (
      text_le-eq-leb (num.to_dec deadline) (num.to_dec bound) (num.to_dec-IsDigit deadline)
          (num.to_dec-IsDigit bound) e,
      num.value-to_dec deadline,
      num.value-to_dec bound,
    ) in
    rw order (ground arith)

-- A deadline whose first digit is greater than that of the bound passes, though it may have fewer
-- digits and be long past.
pub check_deadline_first_digit :
    (num : Numerals) (now_ms deadline threshold c d : ℕ) (s t : Text)
    → num.to_dec deadline ≡ c ∷ s
    → num.to_dec (deadline_bound now_ms threshold) ≡ d ∷ t
    → d < c
    → check_deadline num now_ms deadline threshold ≡ none
unfolding check_deadline
check_deadline_first_digit num now_ms deadline threshold c d s t e f h = rw (e, f) (ground arith)
