-- ===== src/Validation/Laws.antt =====
-- What a check that passes says, and the inversion of a chain of checks.
use zeropool_relayer.Base.{
  ℤ, pos, ◌≤ℤ◌, eq_of_parts, ◌≡◌, refl, ap, Bool, true, false, String, Text, text_eq, text_eq_sound,
  to_lower_case, Option, none, some, Outcome, ok, throws, ◌>>=◌, ◌>>◌, arith,
}
use zeropool_relayer.Validation.{
  OptionError, check_assertion, check_condition, check_proof, check_nullifier,
  check_nullifier_contract, check_transfer_index, check_native_amount, check_fee,
  check_non_zero_withdraw_address, zero_address, check_deposit_enough_balance, check_root,
  check_root_indexer, check_pool_id, check_address_eq,
}

module _ {ℓ} {A : Type ℓ} where
  -- A chain that returns has passed its first assertion.
  pub assertion_passes :
      (e : OptionError) (k : Outcome A) {a : A}
      → (check_assertion (ok e) >> k) ≡ ok a
      → (e ≡ none) × (k ≡ ok a)
  unfolding ◌>>=◌
  assertion_passes none k h = (refl, h)
  assertion_passes (some f) k h = cc

  pub condition_passes :
      (b : Bool) (m : String) (k : Outcome A) {a : A}
      → (check_condition b m >> k) ≡ ok a
      → (b ≡ true) × (k ≡ ok a)
  unfolding ◌>>=◌
  condition_passes true m k h = (refl, h)
  condition_passes false m k h = cc

  -- An assertion whose check may throw.
  pub assertion_passes_of :
      (f : Outcome OptionError) (k : Outcome A) {a : A}
      → (check_assertion f >> k) ≡ ok a
      → (f ≡ ok none) × (k ≡ ok a)
  unfolding ◌>>=◌
  assertion_passes_of (ok none) k h = (refl, h)
  assertion_passes_of (ok (some e)) k h = cc
  assertion_passes_of (throws e) k h = cc

pub check_proof_passes : (v : Bool) → check_proof v ≡ none → v ≡ true
unfolding check_proof
check_proof_passes v h = ground arith

pub check_nullifier_passes : (v : Bool) → check_nullifier v ≡ none → v ≡ false
unfolding check_nullifier
check_nullifier_passes v h = ground arith

pub check_nullifier_contract_passes : (v : ℤ) → check_nullifier_contract v ≡ none → v ≡ pos 0
unfolding check_nullifier_contract
check_nullifier_contract_passes v h = ground arith

pub check_transfer_index_passes :
    (index transfer : ℤ) → check_transfer_index index transfer ≡ none → transfer ≤ℤ index
unfolding check_transfer_index
check_transfer_index_passes index transfer h = ground arith

pub check_native_amount_passes :
    (native amount most : ℤ)
    → check_native_amount (some native) amount most ≡ none
    → (native ≤ℤ amount) × (native ≤ℤ most)
unfolding check_native_amount
check_native_amount_passes native amount most h = ground arith

pub check_fee_passes : (user required : ℤ) → check_fee user required ≡ none → required ≤ℤ user
unfolding check_fee
check_fee_passes user required h = ground arith

pub check_non_zero_withdraw_address_passes :
    (a : Text) → check_non_zero_withdraw_address a ≡ none → text_eq a zero_address ≡ false
unfolding check_non_zero_withdraw_address
check_non_zero_withdraw_address_passes a h = ground arith

pub check_pool_id_passes : (a b : ℤ) → check_pool_id a b ≡ none → a ≡ b
unfolding check_pool_id
check_pool_id_passes a b h = eq_of_parts a b (ground arith)

pub check_address_eq_passes :
    (a b : Text) → check_address_eq a b ≡ none → to_lower_case a ≡ to_lower_case b
unfolding check_address_eq
check_address_eq_passes a b h = text_eq_sound (to_lower_case a) (to_lower_case b) (ground arith)

pub check_root_passes : (s : Option Text) (p : Text) → check_root s p ≡ none → s ≡ some p
unfolding check_root
check_root_passes none p h = cc
check_root_passes (some t) p h = ap some (text_eq_sound t p (ground arith))

pub check_root_indexer_passes :
    (f : Outcome Text) (p : Text) → check_root_indexer f p ≡ ok none → f ≡ ok p
unfolding check_root_indexer ◌>>=◌
check_root_indexer_passes (throws e) p h = cc
check_root_indexer_passes (ok t) p h = ap ok (text_eq_sound t p (ground arith))

pub check_deposit_enough_balance_passes :
    (f : Outcome ℤ) (required : ℤ)
    → check_deposit_enough_balance f required ≡ ok none
    → (balance : ℤ) × (f ≡ ok balance) × (pos 1 ≤ℤ required) × (required ≤ℤ balance)
unfolding check_deposit_enough_balance ◌>>=◌
check_deposit_enough_balance_passes (throws e) required h = ground arith
check_deposit_enough_balance_passes (ok b) required h = (b, refl, ground arith, ground arith)
