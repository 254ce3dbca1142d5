-- ===== src/Permits/Accepts.antt =====
-- What the recovery of a permit asks for, when Permit2 signs.
use zeropool_relayer.Base.{
  ◌>>=◌, ℕ, pos, ◌/◌, ◌%◌, ◌^◌, ◌≡◌, refl, sym, Failure, ap, ◌∙◌, ltb_ℤ, true, false, Text, text_eq,
  to_lower_case, Option, none, some, String, Outcome, ok, throws, >>=-eq-ok, Bool-cases, inl, inr,
}
use zeropool_relayer.Numerals.{Numerals}
use zeropool_relayer.Permits.{
  PermitContracts, PermitTransferFrom, Typed, testn, permit2_precondition, permit2_message,
  permit2_recover, recover_typed,
}
use zeropool_relayer.Pool.Recover.{recover_permit, precondition_holds, same_signer}
use zeropool_relayer.Pool.Types.{RecoverParams, Services}

module _ (bn : Text → ℕ) (number_to_hex : Text → Text) (contracts : PermitContracts)
    (verifying_contract : Text) (p : RecoverParams) where
  -- the allowance covers the amount
  pub Covered : Type 0
  Covered =
      (approved : ℕ) × (contracts.allowance p.owner verifying_contract ≡ ok approved)
      × (ltb_ℤ (pos approved) p.amount ≡ false)

  -- the bit of the nonce in its word of the bitmap is not set
  pub Unused : Type 0
  Unused =
      (pointer : ℕ) × (contracts.nonce_bitmap p.owner (bn p.nullifier / 2 ^ 8) ≡ ok pointer)
      × (testn pointer (bn p.nullifier % 2 ^ 8) ≡ false)

  some_not_ok_none : {s : String} → ◌≡◌ {A = Outcome (Option String)} (ok (some s)) (ok none) → ⊥
  some_not_ok_none e = cc

  permit2_precondition-Covered :
      permit2_precondition bn number_to_hex contracts verifying_contract p ≡ ok none
      → Covered × Unused
  unfolding permit2_precondition Covered Unused
  permit2_precondition-Covered e =
      let (approved, asked, e1) = >>=-eq-ok (contracts.allowance p.owner verifying_contract) _ e in
      elim (Bool-cases (ltb_ℤ (pos approved) p.amount)) [
        | inl low ↦ absurd (some_not_ok_none (rw low at e1))
        | inr enough ↦
            let (pointer, read, e2) =
              >>=-eq-ok (contracts.nonce_bitmap p.owner (bn p.nullifier / 2 ^ 8)) _
                (rw enough at e1) in
            elim (Bool-cases (testn pointer (bn p.nullifier % 2 ^ 8))) [
              | inl used ↦ absurd (some_not_ok_none (rw used at e2))
              | inr unused ↦ ((approved, asked, enough), (pointer, read, unused))
            ]
      ]

  precondition-none : (failed : Option String) → precondition_holds failed ≡ ok tt → failed ≡ none
  precondition-none none e = refl
  precondition-none (some s) e = cc

  ok_is : {a b : Text} → ok a ≡ ok b → a ≡ b
  ok_is e = cc

  throws_not_ok : {f : Failure} {a : Text} → ◌≡◌ {A = Outcome Text} (throws f) (ok a) → ⊥
  throws_not_ok e = cc

  same_signer_lem :
      (recovered signer : Text)
      → same_signer recovered p.owner ≡ ok signer
      → (recovered ≡ signer) × (text_eq (to_lower_case signer) (to_lower_case p.owner) ≡ true)
  unfolding same_signer
  same_signer_lem recovered signer e =
      elim (Bool-cases (text_eq (to_lower_case recovered) (to_lower_case p.owner))) [
        | inl same ↦
            let found = ok_is (rw same at e) in
            (found, ap (λ a. text_eq (to_lower_case a) (to_lower_case p.owner)) (sym found) ∙ same)
        | inr other ↦ absurd (throws_not_ok (rw other at e))
      ]

  recover_typed_ok :
      (ethers : Typed PermitTransferFrom) (domain : Option Text) (m : PermitTransferFrom)
      (signature signer : Text)
      → recover_typed ethers domain (ok m) signature ≡ ok signer
      → (d : Text) × (domain ≡ some d)
        × (ethers.recover_address d (ethers.hash m) signature ≡ ok signer)
  unfolding recover_typed ◌>>=◌
  recover_typed_ok ethers none m signature signer e = absurd (throws_not_ok e)
  recover_typed_ok ethers (some d) m signature signer e = (d, refl, e)

  -- What the owner signs: the token, the amount and the spender, with the nonce and the deadline of the
  -- deposit.
  abbrev pub signed : PermitTransferFrom
  signed = record {
    token = contracts.token_address;
    amount = p.amount;
    spender = p.spender;
    nonce = p.nullifier;
    deadline = p.deadline;
  }

  -- A permittable deposit with Permit2 whose signer is recovered is one for which the token's allowance of
  -- the owner covers the amount, the owner has not used the nonce, the domain is initialised, and the
  -- signature of the message with the token, the amount, the spender, the nonce and the deadline of the
  -- deposit is the owner's, but for the case of letters.
  pub recover_permit-Covered :
      (num : Numerals) (w : Services) (ethers : Typed PermitTransferFrom) (domain : Option Text)
      (signature signer : Text)
      → recover_permit num w
          (some (permit2_recover bn number_to_hex contracts ethers domain verifying_contract))
          p
          signature
        ≡ ok signer
      → Covered
        × Unused
        × (text_eq (to_lower_case signer) (to_lower_case p.owner) ≡ true)
        × ((d : Text) × (domain ≡ some d)
            × (ethers.recover_address d (ethers.hash signed) signature ≡ ok signer))
  unfolding recover_permit permit2_recover permit2_message
  recover_permit-Covered num w ethers domain signature signer e =
      let (failed, e1, f1) =
        >>=-eq-ok (permit2_precondition bn number_to_hex contracts verifying_contract p) _ e in
      let (t, e2, f2) = >>=-eq-ok (precondition_holds failed) _ f1 in
      let (recovered, e3, f3) =
        >>=-eq-ok
          (recover_typed ethers domain (permit2_message bn number_to_hex contracts p) signature) _
          f2 in
      let (covered, unused) =
        permit2_precondition-Covered (e1 ∙ ap ok (precondition-none failed e2)) in
      let (same, owned) = same_signer_lem recovered signer f3 in
      (
        covered,
        unused,
        owned,
        recover_typed_ok ethers domain signed signature signer (e3 ∙ ap ok same),
      )
