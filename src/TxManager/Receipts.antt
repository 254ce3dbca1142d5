-- ===== src/TxManager/Receipts.antt =====
-- What `confirmTx` reports: the last mined attempt, or that none is mined.
use zeropool_relayer.Base.{
  ℕ, zero, suc, ◌<◌, ◌≡◌, ◌⊎◌, inl, inr, refl, sym, Bool, false, List, length, get_elem?, Option,
  none, some, Outcome, ok, >>=-eq-ok, >>=-of-ok, Text, arith, ◌∙◌, Option-cases,
}
use zeropool_relayer.TxManager.{Receipt, TxInfo, mined_info, confirm_from, confirm_tx}

module _ (receipt : Text → Outcome (Option Receipt)) (tx_hashes : List Text) where
  -- The node has a receipt with a block for the i-th attempt.
  abbrev pub MinedAt : ℕ → TxInfo → Type 0
  MinedAt i info =
      (h : Text) × (r : Option Receipt) × (get_elem? tx_hashes i ≡ some h)
      × (receipt h ≡ ok r)
      × (mined_info r ≡ some info)

  -- The node answers that the i-th attempt, if there is one, has no block.
  abbrev pub NotMinedAt : ℕ → Type 0
  NotMinedAt i =
      (h : Text)
      → get_elem? tx_hashes i ≡ some h
      → (r : Option Receipt) × (receipt h ≡ ok r) × (mined_info r ≡ none)

  -- The report on the first n attempts.
  abbrev pub Reports : ℕ → Option TxInfo → Type 0
  Reports n (some info) =
      (i : ℕ) × (i < n) × MinedAt i info × ((j : ℕ) → i < j → j < n → NotMinedAt j)
  Reports n none = (j : ℕ) → j < n → NotMinedAt j

  earlier_or_last : (j n : ℕ) → j < suc n → (j < n) ⊎ (j ≡ n)
  earlier_or_last j n h = ground arith

  NotMinedAt-suc : (n j : ℕ) → NotMinedAt n → (j < n → NotMinedAt j) → j < suc n → NotMinedAt j
  NotMinedAt-suc n j last before h = elim (earlier_or_last j n h) [
    | inl less ↦ before less
    | inr same ↦ rw same last
  ]

  Reports-suc : (n : ℕ) (o : Option TxInfo) → NotMinedAt n → Reports n o → Reports (suc n) o
  Reports-suc n none last r = λ j. NotMinedAt-suc n j last (r j)
  Reports-suc n (some info) last (i, less, mined, later) =
      (i, omega arith, mined, λ j k. NotMinedAt-suc n j last (later j k))

  Reports-last : (n : ℕ) (info : TxInfo) → MinedAt n info → Reports (suc n) (some info)
  Reports-last n info mined = (n, omega arith, mined, λ j above below. absurd (omega arith))

  reported :
      (info : TxInfo) (o : Option TxInfo) (b : Bool)
      → ◌≡◌ {A = Outcome (Option TxInfo × Bool)} (ok (some info, false)) (ok (o, b))
      → (o ≡ some info) × (b ≡ false)
  reported info o b e = (cc, cc)

  some-injective : {A : Type 0} {x y : A} → some x ≡ some y → x ≡ y
  some-injective e = cc

  confirm_from_lem :
      (n : ℕ) (o : Option TxInfo) (b : Bool)
      → confirm_from receipt tx_hashes n ≡ ok (o, b)
      → Reports n o × (b ≡ false)
  unfolding confirm_from
  confirm_from_lem zero none b e = (λ j h. absurd (omega arith), cc)
  confirm_from_lem zero (some info) b e = cc
  confirm_from_lem (suc n) o b e = elim (Option-cases (get_elem? tx_hashes n)) [
    | inl beyond ↦
        (let (r, not_again) = confirm_from_lem n o b (rw (beyond, confirm_from) at e) in
          (Reports-suc n o (λ h f. absurd cc) r, not_again))
    | inr (h, at_n) ↦
        (let (r, got, after) = >>=-eq-ok (receipt h) _ (rw (at_n, confirm_from) at e) in
          elim (Option-cases (mined_info r)) [
            | inl unmined ↦
                (let (before, not_again) = confirm_from_lem n o b (rw unmined at after) in
                  (
                    Reports-suc n o
                        (λ h' at_h'. (r, rw (some-injective (sym at_h' ∙ at_n)) got, unmined))
                        before,
                    not_again,
                  ))
            | inr (info, mined) ↦
                (let (same, not_again) = reported info o b (rw mined at after) in
                  (rw same (Reports-last n info (h, r, at_n, got, mined)), not_again))
          ])
  ]

  -- Where `confirmTx` returns, it reports the last attempt that has a block, and nothing only where
  -- none has one; it never asks to process the job again.
  pub confirm_tx_lem :
      (o : Option TxInfo) (b : Bool)
      → confirm_tx receipt tx_hashes ≡ ok (o, b)
      → Reports (length tx_hashes) o × (b ≡ false)
  unfolding confirm_tx
  confirm_tx_lem o b e = confirm_from_lem (length tx_hashes) o b e

  confirm_from_total :
      ((h : Text) → (r : Option Receipt) × (receipt h ≡ ok r))
      → (n : ℕ) → (o : Option TxInfo) × (confirm_from receipt tx_hashes n ≡ ok (o, false))
  unfolding confirm_from
  confirm_from_total answers zero = (none, refl)
  confirm_from_total answers (suc n) = elim (Option-cases (get_elem? tx_hashes n)) [
    | inl beyond ↦ (let (o, e) = confirm_from_total answers n in (o, rw (beyond, confirm_from) e))
    | inr (h, at_n) ↦
        (let (r, got) = answers h in
          elim (Option-cases (mined_info r)) [
            | inl unmined ↦
                (let (o, e) = confirm_from_total answers n in
                  (o, rw (at_n, confirm_from) (>>=-of-ok (receipt h) _ r got (rw unmined e))))
            | inr (info, mined) ↦
                (some info, rw (at_n, confirm_from) (>>=-of-ok (receipt h) _ r got (rw mined)))
          ])
  ]

  -- A node that answers every request makes `confirmTx` return.
  pub confirm_tx_total :
      ((h : Text) → (r : Option Receipt) × (receipt h ≡ ok r))
      → (o : Option TxInfo) × (confirm_tx receipt tx_hashes ≡ ok (o, false))
  unfolding confirm_tx
  confirm_tx_total answers = confirm_from_total answers (length tx_hashes)
