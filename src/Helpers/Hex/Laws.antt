-- ===== src/Helpers/Hex/Laws.antt =====
-- The width and the value of the numbers that the calldata holds, and the two formats of a stored
-- transaction.
use native.Mathlib.Nat.{pow-suc}
use zeropool_relayer.Base.{
  ℤ, pos, negsuc, -ℤ_parts, eq_of_parts, ◌∙◌, ℕ, zero, suc, ◌-◌, ◌*◌, ◌^◌, ◌≤◌, ◌<◌, ◌≡◌, refl, ap,
  Text, ◌++◌, append_assoc, drop, length, length-append, length-replicate, take-append_length,
  drop-append_length, replicate, arith, pos_part, neg_part,
}
use zeropool_relayer.Helpers.TxTypes.{truncate_hex_prefix}
use zeropool_relayer.Helpers.Hex.{
  bn_to_hex, complement, num_to_hex, build_prefixed_memo, tx_to_v2_format,
}
use zeropool_relayer.Numerals.{Numerals}
use zeropool_relayer.Numerals.Value.{value, value-zeros}

-- 2 ^ (4 * k) is 16 ^ k.
pub pow_two_four : (k : ℕ) → 2 ^ (k * 4) ≡ 16 ^ k
pow_two_four zero = refl
pow_two_four (suc k) =
    let e : suc k * 4 ≡ suc (suc (suc (suc (k * 4)))) = omega arith in
    rw (e, pow-suc 16 k, ← pow_two_four k)
      (omega (
        arith,
        pow-suc 2 (k * 4),
        pow-suc 2 (suc (k * 4)),
        pow-suc 2 (suc (suc (k * 4))),
        pow-suc 2 (suc (suc (suc (k * 4)))),
      ))

-- The number that a text of `pad` hexadecimal digits holds for n: n itself, or 16 ^ pad + n.
abbrev pub twos_complement : ℤ → ℕ → ℕ
twos_complement (pos n) pad = n
twos_complement (negsuc n) pad = 16 ^ pad - suc n

module _ (num : Numerals) where
  pub length-pad_left : (s : Text) (n : ℕ) → length s ≤ n → length (num.pad_left s n) ≡ n
  length-pad_left s n h =
      rw (num.pad_left-eq s n, length-append (replicate (n - length s) b'0') s)
        (omega (arith, length-replicate {A = ℕ} (n - length s) b'0'))

  pub value-pad_left : (s : Text) (n : ℕ) → value 16 (num.pad_left s n) ≡ value 16 s
  value-pad_left s n = rw (num.pad_left-eq s n) (value-zeros 16 (n - length s) s)

  pub length-num_to_hex_pos :
      (n k : ℕ) → n < 16 ^ suc k → length (num_to_hex num (pos n) (suc k)) ≡ suc k
  unfolding num_to_hex
  length-num_to_hex_pos n k h = length-pad_left (num.to_hex n) (suc k) (num.length-to_hex n k h)

  complement_pos :
      (n : ℤ) (pad : ℕ) → neg_part n ≤ 16 ^ pad → complement num n pad ≡ pos (twos_complement n pad)
  unfolding complement
  complement_pos (pos n) pad h = refl
  complement_pos (negsuc n) pad h =
      rw (pow_two_four pad)
        (eq_of_parts _ _ (omega (arith, -ℤ_parts (pos (16 ^ pad)) (pos (suc n)))))

  num_to_hex_negsuc :
      (n pad : ℕ)
      → suc n ≤ 16 ^ pad
      → num_to_hex num (negsuc n) pad ≡ num.pad_left (num.to_hex (16 ^ pad - suc n)) pad
  unfolding num_to_hex
  num_to_hex_negsuc n pad h =
      ap (λ z. num.pad_left (bn_to_hex num z) pad) (complement_pos (negsuc n) pad h)

  -- A number from -(16 ^ pad) up to 16 ^ pad takes exactly `pad` digits, and they hold its two's
  -- complement.
  pub num_to_hex_lem :
      (n : ℤ) (k : ℕ)
      → pos_part n < 16 ^ suc k
      → neg_part n ≤ 16 ^ suc k
      → (length (num_to_hex num n (suc k)) ≡ suc k)
        × (value 16 (num_to_hex num n (suc k)) ≡ twos_complement n (suc k))
  num_to_hex_lem (pos n) k h g = (
    length-num_to_hex_pos n k h,
    unfold num_to_hex in (value-pad_left (num.to_hex n) (suc k) ∙ num.value-to_hex n),
  )
  num_to_hex_lem (negsuc n) k h g =
      let m : ℕ = 16 ^ suc k - suc n in
      let small : m < 16 ^ suc k = omega arith in
      rw (num_to_hex_negsuc n (suc k) g) (
        length-pad_left (num.to_hex m) (suc k) (num.length-to_hex m k small),
        value-pad_left (num.to_hex m) (suc k) ∙ num.value-to_hex m,
      )

  -- What the relay pool stores for a transaction, in the format of the indexer: its commitment and
  -- its hash change places, the memo is kept; the commitment fits 64 digits and the hash has 64.
  pub tx_to_v2_format-build_prefixed_memo :
      (prefix out_commit tx_hash memo : Text)
      → num.of_dec out_commit < 16 ^ 64
      → length (truncate_hex_prefix tx_hash) ≡ 64
      → tx_to_v2_format prefix (build_prefixed_memo num out_commit tx_hash memo)
        ≡ prefix
          ++ (truncate_hex_prefix tx_hash
              ++ (num_to_hex num (pos (num.of_dec out_commit)) 64 ++ memo))
  unfolding tx_to_v2_format build_prefixed_memo
  tx_to_v2_format-build_prefixed_memo prefix out_commit tx_hash memo small full =
      let commit = num_to_hex num (pos (num.of_dec out_commit)) 64 in
      let hash = truncate_hex_prefix tx_hash in
      let width : length commit ≡ 64 = length-num_to_hex_pos (num.of_dec out_commit) 63 small in
      let both : length (commit ++ hash) ≡ 128 = omega (arith, length-append {0} commit hash) in
      let past : drop 128 (commit ++ (hash ++ memo)) ≡ memo =
        rw (← append_assoc commit hash memo) (drop-append_length 128 (commit ++ hash) memo both) in
      rw (
        past,
        drop-append_length 64 commit (hash ++ memo) width,
        take-append_length 64 commit (hash ++ memo) width,
        take-append_length 64 hash memo full,
      )
