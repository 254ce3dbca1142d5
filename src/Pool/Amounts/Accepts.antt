-- ===== src/Pool/Amounts/Accepts.antt =====
-- What the amounts of an accepted transaction satisfy, for each type.
use zeropool_relayer.Base.{
  ℤ, pos, neg, ◌+ℤ◌, ◌≤ℤ◌, eq_of_parts, ltb_ℤ, leb_ℤ, eqb_ℤ, ℕ, ◌≡◌, refl, Bool, true, false, ◌&&◌,
  Text, text_eq, Option, none, some, List, ok, >>=-eq-ok, arith,
}
use zeropool_relayer.Helpers.TxTypes.{TxType, deposit, transfer, withdrawal, permittable_deposit}
use zeropool_relayer.Helpers.Denominator.{apply_denominator}
use zeropool_relayer.Memo.{Extra, nothing, withdraw_data}
use zeropool_relayer.Numerals.{Numerals}
use zeropool_relayer.Pool.Amounts.{
  PoolConfig, Party, is_some, or_empty, withdrawal_party, deposit_party, transfer_party,
  check_amounts, check_party, check_optional_fee, check_optional_deadline, check_optional_screener,
}
use zeropool_relayer.Pool.Recover.{get_recovered_address}
use zeropool_relayer.Pool.Types.{PoolTx, Services, OptionalChecks, Delta}
use zeropool_relayer.Validation.{zero_address, Limits}
use zeropool_relayer.Validation.Caps.{Allows, check_limits-Allows}
use zeropool_relayer.Validation.Laws.{
  assertion_passes, assertion_passes_of, condition_passes, check_native_amount_passes,
  check_non_zero_withdraw_address_passes, check_deposit_enough_balance_passes,
}

module _ (num : Numerals) (w : Services) (c : PoolConfig) where
  -- A withdrawal takes out at least its fees, asks for no more native coin than it takes out and than
  -- the relayer gives, and pays a receiver that is not the zero address.
  pub record Withdraws (d : Delta) (fee : ℤ) (native : ℕ) (receiver : List ℕ) (p : Party)
      : Type 0 where
    pub covers : d.token_amount +ℤ fee ≤ℤ pos 0
    pub energy : d.energy_amount ≤ℤ pos 0
    pub native_covered : pos native ≤ℤ neg (d.token_amount +ℤ fee)
    pub native_allowed : pos native ≤ℤ c.max_native_amount
    pub to_someone : text_eq (w.bytes_to_hex receiver) zero_address ≡ false
    pub user : p.user_address ≡ w.bytes_to_hex receiver

  -- A deposit is positive, moves no energy, and is signed by an account whose balance covers it
  -- with its fees, in units of the token.
  pub record Deposits (t : TxType) (n : Text) (d : Delta) (fee : ℤ) (e : Extra) (s : Option Text)
      (p : Party) : Type 0 where
    pub positive : pos 1 ≤ℤ d.token_amount
    pub energy : d.energy_amount ≡ pos 0
    pub balance : ℤ
    pub funds : w.balance_of p.user_address ≡ ok balance
    pub covered : apply_denominator (d.token_amount +ℤ fee) c.denominator ≤ℤ balance
    pub signature : Text
    pub signed : s ≡ some signature
    pub signer :
        get_recovered_address num w t n e
          (apply_denominator (d.token_amount +ℤ fee) c.denominator)
          signature
        ≡ ok p.user_address

  -- A transfer pays exactly its fees.
  pub record Transfers (d : Delta) (fee : ℤ) (p : Party) : Type 0 where
    pub balanced : d.token_amount +ℤ fee ≡ pos 0
    pub energy : d.energy_amount ≡ pos 0
    pub user : p.user_address ≡ c.own_address

  -- What holds of the amounts, by the type of the transaction.
  abbrev pub AmountsFit : TxType → Text → Delta → ℤ → Extra → Option Text → Party → Type 0
  AmountsFit withdrawal n d fee (withdraw_data native receiver) s p =
      Withdraws d fee native receiver p
  AmountsFit deposit n d fee e s p = Deposits deposit n d fee e s p
  AmountsFit permittable_deposit n d fee e s p = Deposits permittable_deposit n d fee e s p
  AmountsFit transfer n d fee e s p = Transfers d fee p
  AmountsFit withdrawal n d fee e s p = ⊥

  both : (a b : Bool) → (a && b) ≡ true → (a ≡ true) × (b ≡ true)
  both true b h = (refl, h)
  both false b h = cc

  le_zero : (a : ℤ) → leb_ℤ a (pos 0) ≡ true → a ≤ℤ pos 0
  le_zero a h = ground arith

  is_zero : (a : ℤ) → eqb_ℤ a (pos 0) ≡ true → a ≡ pos 0
  is_zero a h = eq_of_parts a (pos 0) (ground arith)

  is_positive : (a : ℤ) → ltb_ℤ (pos 0) a ≡ true → pos 1 ≤ℤ a
  is_positive a h = ground arith

  given : (s : Option Text) → is_some s ≡ true → (t : Text) × (s ≡ some t) × (or_empty s ≡ t)
  given none h = cc
  given (some t) h = (t, refl, refl)

  withdrawal_party-Withdraws :
      (d : Delta) (fee : ℤ) (native : ℕ) (receiver : List ℕ) (p : Party)
      → withdrawal_party num w c d fee native receiver ≡ ok p
      → Withdraws d fee native receiver p
  unfolding withdrawal_party
  withdrawal_party-Withdraws d fee native receiver p h0 =
      let (amounts, h1) = condition_passes _ _ _ h0 in
      let (address, h2) = assertion_passes _ _ h1 in
      let (native_ok, h3) = assertion_passes _ _ h2 in
      let (covers, energy) = both _ _ amounts in
      let fits =
        check_native_amount_passes (pos native) (neg (d.token_amount +ℤ fee)) c.max_native_amount
          native_ok in
      record {
        covers = le_zero (d.token_amount +ℤ fee) covers;
        energy = le_zero d.energy_amount energy;
        native_covered = fits.0;
        native_allowed = fits.1;
        to_someone = check_non_zero_withdraw_address_passes (w.bytes_to_hex receiver) address;
        user = cc h3;
      }

  transfer_party-Transfers :
      (d : Delta) (fee : ℤ) (p : Party) → transfer_party num w c d fee ≡ ok p → Transfers d fee p
  unfolding transfer_party
  transfer_party-Transfers d fee p h0 =
      let (amounts, h1) = condition_passes _ _ _ h0 in
      let (balanced, energy) = both _ _ amounts in
      record {
        balanced = is_zero (d.token_amount +ℤ fee) balanced;
        energy = is_zero d.energy_amount energy;
        user = cc h1;
      }

  deposit_party-Deposits :
      (t : TxType) (n : Text) (d : Delta) (fee : ℤ) (e : Extra) (s : Option Text) (p : Party)
      → deposit_party num w c t n d fee e s ≡ ok p
      → Deposits t n d fee e s p
  unfolding deposit_party
  deposit_party-Deposits t n d fee e s p h0 =
      let required = apply_denominator (d.token_amount +ℤ fee) c.denominator in
      let (amounts, h1) = condition_passes _ _ _ h0 in
      let (sig, h2) = condition_passes _ _ _ h1 in
      let (user, recovered, h3) = >>=-eq-ok _ _ h2 in
      let (enough, h4) = assertion_passes_of _ _ h3 in
      let (positive, energy) = both _ _ amounts in
      let (signature, signed, text) = given s sig in
      let (balance, funds, lo, hi) =
        check_deposit_enough_balance_passes (w.balance_of user) required enough in
      let same : user ≡ p.user_address = cc h4 in
      record {
        positive = is_positive d.token_amount positive;
        energy = is_zero d.energy_amount energy;
        balance = balance;
        funds = rw (← same) funds;
        covered = hi;
        signature = signature;
        signed = signed;
        signer = rw (← same, ← text) recovered;
      }

  -- Whatever its type, a transaction whose check of amounts returns has amounts that fit.
  pub check_amounts-AmountsFit :
      (t : TxType) (n : Text) (d : Delta) (fee : ℤ) (e : Extra) (s : Option Text) (p : Party)
      → check_amounts num w c t n d fee e s ≡ ok p
      → AmountsFit t n d fee e s p
  unfolding check_amounts
  check_amounts-AmountsFit withdrawal n d fee (withdraw_data native receiver) s p h =
      withdrawal_party-Withdraws d fee native receiver p h
  check_amounts-AmountsFit deposit n d fee nothing s p h =
      deposit_party-Deposits deposit n d fee nothing s p h
  check_amounts-AmountsFit deposit n d fee e s p h = deposit_party-Deposits deposit n d fee e s p h
  check_amounts-AmountsFit permittable_deposit n d fee nothing s p h =
      deposit_party-Deposits permittable_deposit n d fee nothing s p h
  check_amounts-AmountsFit permittable_deposit n d fee e s p h =
      deposit_party-Deposits permittable_deposit n d fee e s p h
  check_amounts-AmountsFit transfer n d fee nothing s p h = transfer_party-Transfers d fee p h
  check_amounts-AmountsFit transfer n d fee e s p h = transfer_party-Transfers d fee p h
  check_amounts-AmountsFit withdrawal n d fee e s p h = cc h

  -- The amounts of an accepted transaction fit its type, and are within the limits of the user that
  -- the amounts name.
  pub check_party-AmountsFit :
      (o : OptionalChecks) (tx : PoolTx) (mock n : Text) (d : Delta) (fee : ℤ) (e : Extra)
      → check_party num w c o tx mock n d fee e ≡ ok tt
      → (p : Party) × (limits : Limits) × AmountsFit tx.tx_type n d fee e tx.deposit_signature p
        × (w.get_limits_for p.user_address ≡ ok limits)
        × Allows limits d.token_amount
        × (check_optional_fee num w c o tx mock p.native_convert fee ≡ ok tt)
        × (check_optional_deadline num w c tx.tx_type e ≡ ok tt)
        × (check_optional_screener num w c o tx.tx_type p.user_address ≡ ok tt)
  unfolding check_party
  check_party-AmountsFit o tx mock n d fee e h0 =
      let (p, amounts, h1) = >>=-eq-ok _ _ h0 in
      let (fee_ok, fee_passes, h2) = >>=-eq-ok _ _ h1 in
      let (limits, fetched, h3) = >>=-eq-ok _ _ h2 in
      let (within, h4) = assertion_passes _ _ h3 in
      let (deadline_ok, deadline, h5) = >>=-eq-ok _ _ h4 in
      (
        p,
        limits,
        check_amounts-AmountsFit tx.tx_type n d fee e tx.deposit_signature p amounts,
        fetched,
        check_limits-Allows limits d.token_amount within,
        fee_passes,
        deadline,
        h5,
      )
