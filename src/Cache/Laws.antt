-- ===== src/Cache/Laws.antt =====
-- What `TxStore` gives back of what it stores.
use zeropool_relayer.Base.{
  ℕ, ◌^◌, ◌<◌, ◌≡◌, refl, ap, ◌∙◌, Text, text_eq, [], ◌∷◌, All, length, length-append,
  drop-append_length, take-append_length, some, arith, Bool-cases, inl, inr, if◌then◌else◌,
  All-append, replicate, zero, suc,
}
use zeropool_relayer.Cache.{number_to_hex_padded, entry_text, stored_tx, stored_of, get, add}
use zeropool_relayer.Cache.Hash.{RedisHash}
use zeropool_relayer.Helpers.Hex.Laws.{length-pad_left, value-pad_left}
use zeropool_relayer.Numerals.{Numerals}
use zeropool_relayer.Numerals.Value.{value, IsDigit}

-- `parseInt(s, 16)` and `BigNumber(s, 16)` on hexadecimal digits.
abbrev pub ParsesHex : (Text → ℕ) → Type 0
ParsesHex parse_hex = (s : Text) → All (IsDigit 16) s → parse_hex s ≡ value 16 s

All-zeros : (k : ℕ) → All (IsDigit 16) (replicate k b'0')
All-zeros zero = tt
All-zeros (suc k) = ((inl (omega arith, omega arith), omega arith), All-zeros k)

module _ (num : Numerals) where
  padded-IsDigit : (n k : ℕ) → All (IsDigit 16) (number_to_hex_padded num n k)
  unfolding number_to_hex_padded
  padded-IsDigit n k =
      rw (num.pad_left-eq (num.to_hex n) _)
        (All-append (IsDigit 16) _ (num.to_hex n) (All-zeros _) (num.to_hex-IsDigit n))

  -- An entry reads back as the memo and the time that it was written with, for a time of at most 12
  -- hexadecimal digits.
  stored_tx-entry_text :
      (parse_hex : Text → ℕ) (memo : Text) (timestamp : ℕ)
      → ParsesHex parse_hex
      → timestamp < 16 ^ 12
      → stored_tx parse_hex (entry_text num memo timestamp)
        ≡ record { memo = memo; timestamp = timestamp }
  unfolding stored_tx entry_text
  stored_tx-entry_text parse_hex memo timestamp parses small =
      let text = number_to_hex_padded num timestamp 6 in
      let width : length text ≡ 12 =
        unfold number_to_hex_padded in
        length-pad_left num (num.to_hex timestamp) 12 (num.length-to_hex timestamp 11 small) in
      let number : parse_hex text ≡ timestamp =
        parses text (padded-IsDigit timestamp 6)
        ∙ (unfold number_to_hex_padded in value-pad_left num (num.to_hex timestamp) 12)
        ∙ num.value-to_hex timestamp in
      rw (drop-append_length 12 text memo width, take-append_length 12 text memo width, number) refl

  stored_of-some :
      (parse_hex : Text → ℕ) (t : Text)
      → 0 < length t
      → stored_of parse_hex (some t) ≡ some (stored_tx parse_hex t)
  unfolding stored_of
  stored_of-some parse_hex [] h = absurd (omega arith)
  stored_of-some parse_hex (c ∷ t) h = refl

  entry_text_full :
      (memo : Text) (timestamp : ℕ)
      → timestamp < 16 ^ 12
      → 0 < length (entry_text num memo timestamp)
  unfolding entry_text number_to_hex_padded
  entry_text_full memo timestamp small = omega (
    arith,
    length-append (num.pad_left (num.to_hex timestamp) 12) memo,
    length-pad_left num (num.to_hex timestamp) 12 (num.length-to_hex timestamp 11 small),
  )

  module _ (h : RedisHash) where
    -- After `add`, the commitment reads as the memo and the time that were added, whatever stood there
    -- before, and every other commitment as before; for times of at most 12 hexadecimal digits.
    pub get-add :
        (parse_hex : Text → ℕ) (s : h.Hash) (commitment memo : Text) (timestamp : ℕ) (j : Text)
        → ParsesHex parse_hex
        → timestamp < 16 ^ 12
        → get h parse_hex (add num h s commitment memo timestamp) j ≡ (
            if text_eq commitment j
            then some (record { memo = memo; timestamp = timestamp })
            else get h parse_hex s j)
    unfolding get add
    get-add parse_hex s commitment memo timestamp j parses small =
        let set = h.hget-hset s commitment (entry_text num memo timestamp) j in
        elim (Bool-cases (text_eq commitment j)) [
          | inl e ↦
              rw (set, e)
                (stored_of-some parse_hex (entry_text num memo timestamp)
                    (entry_text_full memo timestamp small)
                  ∙ ap some (stored_tx-entry_text parse_hex memo timestamp parses small))
          | inr e ↦ rw (set, e) refl
        ]
