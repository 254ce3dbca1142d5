-- ===== src/Deposits/Accepts.antt =====
-- What a direct deposit that `validateDirectDeposit` accepts satisfies.
use zeropool_relayer.Base.{
  ◌<◌, ◌≡◌, refl, Bool, true, false, Text, text_eq, text_eq_sound, Option, none, some, Failure, ok,
  throws, ◌>>=◌, leb, arith, Bool-cases, inl, inr, >>=-eq-ok,
}
use zeropool_relayer.Deposits.{
  DirectDeposit, DirectDepositStruct, DepositServices, snark_scalar_field, pending_status,
  check_direct_deposit_pk, compare_deposit, check_direct_deposit_consistency, check_screened,
  validate_direct_deposit,
}
use zeropool_relayer.Validation.{OptionError, check_assertion, check_screener}
use zeropool_relayer.Validation.Laws.{assertion_passes, assertion_passes_of}

throws_ne_ok : {A : Type 0} {f : Failure} {a : A} → throws f ≡ ok a → ⊥
throws_ne_ok e = cc

-- Both parties of a deposit pass a screener, if there is one.
abbrev pub Screened : Option (Text → Option Bool) → DirectDeposit → Type 0
Screened none dd = Unit
Screened (some ask) dd = (ask dd.sender ≡ some false) × (ask dd.fallback_user ≡ some false)

screener_passes : (o : Option Bool) → check_screener o ≡ none → o ≡ some false
unfolding check_screener
screener_passes none e = cc
screener_passes (some true) e = cc
screener_passes (some false) e = refl

assertion_ends : (e : OptionError) → check_assertion (ok e) ≡ ok tt → e ≡ none
unfolding ◌>>=◌
assertion_ends none h = refl
assertion_ends (some f) h = cc

module _ (s : DepositServices) where
  -- A deposit that the contract holds.
  pub record Accepted (dd : DirectDeposit) : Type 0 where
    pub found : DirectDepositStruct
    pub answer : s.get_direct_deposit dd.nonce ≡ ok found
    pub in_field : s.to_bn dd.zk_address.pk < snark_scalar_field
    pub in_subgroup : s.is_in_prime_subgroup (s.to_bn dd.zk_address.pk) ≡ true
    pub pending : found.status ≡ pending_status
    pub same_user : found.fallback_receiver ≡ dd.fallback_user
    pub same_amount : found.deposit ≡ dd.deposit
    pub screened : Screened s.screener dd

  pk_passes :
      (pk : Text)
      → check_direct_deposit_pk s pk ≡ ok none
      → (s.to_bn pk < snark_scalar_field) × (s.is_in_prime_subgroup (s.to_bn pk) ≡ true)
  unfolding check_direct_deposit_pk
  pk_passes pk h = elim (Bool-cases (leb snark_scalar_field (s.to_bn pk))) [
    | inl e ↦ absurd (throws_ne_ok (rw (e, check_direct_deposit_pk) at h))
    | inr e ↦ elim (Bool-cases (s.is_in_prime_subgroup (s.to_bn pk))) [
      | inl f ↦ (ground arith, f)
      | inr f ↦ absurd (throws_ne_ok (rw (e, f, check_direct_deposit_pk) at h))
    ]
  ]

  compare_passes :
      (dd : DirectDeposit) (found : DirectDepositStruct)
      → compare_deposit s dd found ≡ ok none
      → (found.status ≡ pending_status)
        × (found.fallback_receiver ≡ dd.fallback_user)
        × (found.deposit ≡ dd.deposit)
  unfolding compare_deposit
  compare_passes dd found h = elim (Bool-cases (text_eq found.status pending_status)) [
    | inr e ↦ absurd (throws_ne_ok (rw (e, compare_deposit) at h))
    | inl e ↦ elim (Bool-cases (text_eq found.fallback_receiver dd.fallback_user)) [
      | inr f ↦ absurd (throws_ne_ok (rw (e, f, compare_deposit) at h))
      | inl f ↦ elim (Bool-cases (text_eq found.deposit dd.deposit)) [
        | inr g ↦ absurd (throws_ne_ok (rw (e, f, g, compare_deposit) at h))
        | inl g ↦ (text_eq_sound _ _ e, text_eq_sound _ _ f, text_eq_sound _ _ g)
      ]
    ]
  ]

  Screened-passes :
      (screener : Option (Text → Option Bool)) (dd : DirectDeposit)
      → check_screened s screener dd ≡ ok tt
      → Screened screener dd
  unfolding check_screened
  Screened-passes none dd h = tt
  Screened-passes (some ask) dd h =
      let (sender, h1) = assertion_passes (check_screener (ask dd.sender)) _ h in
      (
        screener_passes _ sender,
        screener_passes _ (assertion_ends (check_screener (ask dd.fallback_user)) h1),
      )

  -- A deposit that the validation lets through is one that the contract holds as pending, for the same
  -- user and amount; its key is a number below the field's size that stands for a point of the prime
  -- subgroup; and both parties pass the screener, if there is one.
  pub validate_direct_deposit-Accepted :
      (dd : DirectDeposit) → validate_direct_deposit s dd ≡ ok tt → Accepted dd
  unfolding validate_direct_deposit check_direct_deposit_consistency
  validate_direct_deposit-Accepted dd h =
      let (key, h1) = assertion_passes_of (check_direct_deposit_pk s dd.zk_address.pk) _ h in
      let (same, h2) = assertion_passes_of (check_direct_deposit_consistency s dd) _ h1 in
      let (found, answer, compared) = >>=-eq-ok (s.get_direct_deposit dd.nonce) _ same in
      let (in_field, in_subgroup) = pk_passes dd.zk_address.pk key in
      let (pending, same_user, same_amount) = compare_passes dd found compared in
      record {
        found = found;
        answer = answer;
        in_field = in_field;
        in_subgroup = in_subgroup;
        pending = pending;
        same_user = same_user;
        same_amount = same_amount;
        screened = Screened-passes s.screener dd h2;
      }
