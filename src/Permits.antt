-- ===== src/Permits.antt =====
-- zp-relayer/utils/permit: the signers of permits. Contracts, `toBN`, `numberToHex`, the hash of typed
-- data and the recovery of an address are parameters; the fields of typed data are left out.
-- Amounts and deadlines are the numbers that their decimal texts print.
pub mod Accepts
use zeropool_relayer.Base.{
  ℕ, ℤ, pos, zero, suc, ◌+◌, ◌*◌, ◌/◌, ◌%◌, ◌^◌, ltb_ℤ, not, Bool, true, false, String, Text, codes,
  ◌==◌, Option, none, some, Outcome, ok, throws, error, ◌>>=◌, if◌then◌else◌,
}
use zeropool_relayer.Pool.Types.{PermitRecover, RecoverParams}

-- The contracts that the signers call.
pub record PermitContracts : Type 0 where
  pub token_address : Text
  pub allowance : Text → Text → Outcome ℕ
  pub nonces : Text → Outcome Text
  pub nonce_bitmap : Text → ℕ → Outcome ℕ
  pub authorization_state : Text → Text → Outcome ℕ

-- `PermitType`, less a value that is none of them
pub data PermitType : Type 0 where
  no_permit permit2 salted_permit transfer_with_authorization : PermitType

-- `testn` of BN
abbrev pub testn : ℕ → ℕ → Bool
testn n bit = n / 2 ^ bit % 2 == 1

pub record PermitTransferFrom : Type 0 where
  pub token : Text
  pub amount : ℤ
  pub spender : Text
  pub nonce : Text
  pub deadline : ℕ

pub record SaltedPermitMessage : Type 0 where
  pub owner : Text
  pub spender : Text
  pub value : ℤ
  pub nonce : Text
  pub deadline : ℕ
  pub salt : Text

pub record TransferWithAuthorization : Type 0 where
  pub from : Text
  pub to : Text
  pub value : ℤ
  pub valid_after : ℕ
  pub valid_before : ℕ
  pub nonce : Text

-- The functions of ethers on a message: the hash of typed data, the recovery of an address from the
-- digest of the domain and that hash.
pub record Typed (Message : Type 0) : Type 0 where
  pub hash : Message → Text
  pub recover_address : Text → Text → Text → Outcome Text

-- `recoverPermitSignature` of `IPermitRecover`, on the domain separator
unfoldable pub recover_typed :
    {Message : Type 0} → Typed Message → Option Text → Outcome Message → Text → Outcome Text
unfolding ◌>>=◌
recover_typed ethers none built signature = throws (error "Domain not initialized")
recover_typed ethers (some domain_separator) built signature =
    built >>= λ message. ethers.recover_address domain_separator (ethers.hash message) signature

module _ (bn : Text → ℕ) (number_to_hex : Text → Text) (contracts : PermitContracts) where
  -- `precondition` of `Permit2Recover`, at the address of the Permit2 contract
  unfoldable pub permit2_precondition : Text → RecoverParams → Outcome (Option String)
  unfolding ◌>>=◌
  permit2_precondition verifying_contract p =
      contracts.allowance p.owner verifying_contract >>= λ approved.
      if ltb_ℤ (pos approved) p.amount
      then ok (some "Permit2: Allowance is too low")
      else contracts.nonce_bitmap p.owner (bn p.nullifier / 2 ^ 8) >>= λ pointer.
          if testn pointer (bn p.nullifier % 2 ^ 8)
          then ok (some "Permit2: Nonce already used")
          else ok none

  -- `buildMessage` of `Permit2Recover`
  unfoldable pub permit2_message : RecoverParams → Outcome PermitTransferFrom
  permit2_message p = ok (record {
    token = contracts.token_address;
    amount = p.amount;
    spender = p.spender;
    nonce = p.nullifier;
    deadline = p.deadline;
  })

  -- `buildMessage` of `SaltedPermitRecover`, which has no precondition
  unfoldable pub salted_message : RecoverParams → Outcome SaltedPermitMessage
  unfolding ◌>>=◌
  salted_message p = contracts.nonces p.owner >>= λ nonce. ok (record {
    owner = p.owner;
    spender = p.spender;
    value = p.amount;
    nonce = nonce;
    deadline = p.deadline;
    salt = p.nullifier;
  })

  -- `precondition` of `TransferWithAuthorizationRecover`
  unfoldable pub authorization_precondition : RecoverParams → Outcome (Option String)
  unfolding ◌>>=◌
  authorization_precondition p =
      contracts.authorization_state p.owner (number_to_hex p.nullifier) >>= λ is_used.
      if not (is_used == 0)
      then ok (some "TransferWithAuthorization: authorization is used or canceled")
      else ok none

  -- `buildMessage` of `TransferWithAuthorizationRecover`
  unfoldable pub authorization_message : RecoverParams → Outcome TransferWithAuthorization
  authorization_message p = ok (record {
    from = p.owner;
    to = p.spender;
    value = p.amount;
    valid_after = 0;
    valid_before = p.deadline;
    nonce = p.nullifier;
  })

  -- The three signers, each with its domain separator.
  unfoldable pub permit2_recover : Typed PermitTransferFrom → Option Text → Text → PermitRecover
  unfolding permit2_precondition permit2_message recover_typed
  permit2_recover ethers domain verifying_contract = record {
    precondition = permit2_precondition verifying_contract;
    recover_permit_signature =
        λ p signature. recover_typed ethers domain (permit2_message p) signature;
  }

  unfoldable pub salted_recover : Typed SaltedPermitMessage → Option Text → PermitRecover
  unfolding salted_message recover_typed
  salted_recover ethers domain = record {
    precondition = λ p. ok none;
    recover_permit_signature =
        λ p signature. recover_typed ethers domain (salted_message p) signature;
  }

  unfoldable pub authorization_recover :
      Typed TransferWithAuthorization → Option Text → PermitRecover
  unfolding authorization_precondition authorization_message recover_typed
  authorization_recover ethers domain = record {
    precondition = authorization_precondition;
    recover_permit_signature =
        λ p signature. recover_typed ethers domain (authorization_message p) signature;
  }

  -- The choice in `init` of both pools, between the token and the Permit2 contract.
  unfoldable pub infer_permit :
      Typed PermitTransferFrom
      → Typed SaltedPermitMessage
      → Typed TransferWithAuthorization
      → (Text → Option Text)
      → Text
      → Text
      → PermitType
      → Option PermitRecover
  unfolding permit2_recover salted_recover authorization_recover
  infer_permit e f g domain_of token permit2_contract salted_permit =
      some (salted_recover f (domain_of token))
  infer_permit e f g domain_of token permit2_contract permit2 =
      some (permit2_recover e (domain_of permit2_contract) permit2_contract)
  infer_permit e f g domain_of token permit2_contract transfer_with_authorization =
      some (authorization_recover g (domain_of token))
  infer_permit e f g domain_of token permit2_contract no_permit = none
