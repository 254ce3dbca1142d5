-- ===== src/Helpers/Denominator.antt =====
-- `applyDenominator` of zp-relayer/utils/helpers.ts, and the inverse that
-- zp-relayer/lib/fee/FeeManager.ts builds by flipping bit 255.
use native.Mathlib.Nat.{mul-div_cancel}
use zeropool_relayer.Base.{
  ℕ, zero, suc, ℤ, pos, negsuc, false, true, ◌+◌, ◌-◌, ◌*◌, ◌/◌, ◌%◌, ◌^◌, ◌<◌, ◌≡◌, refl, ap, ◌==◌,
  Bool, if◌then◌else◌, arith,
}

-- d.testn(255)
abbrev pub testn255 : ℕ → Bool
testn255 d = d / 2 ^ 255 % 2 == 1

-- d.maskn(255)
abbrev pub maskn255 : ℕ → ℕ
maskn255 d = d % 2 ^ 255

-- n.div(d.maskn(255)) or n.mul(d), of the absolute value
abbrev pub apply_to_magnitude : ℕ → ℕ → ℕ
apply_to_magnitude n d = if testn255 d then n / maskn255 d else n * d

-- The number -m.
abbrev pub minus : ℕ → ℤ
minus zero = pos 0
minus (suc m) = negsuc m

-- `applyDenominator`; `BN` keeps the sign and divides towards zero
unfoldable pub apply_denominator : ℤ → ℕ → ℤ
apply_denominator (pos n) d = pos (apply_to_magnitude n d)
apply_denominator (negsuc n) d = minus (apply_to_magnitude (suc n) d)

-- d.xor(toBN(1).shln(255)): the flip of the one bit 255
unfoldable pub flip255 : ℕ → ℕ
flip255 d = if testn255 d then d - 2 ^ 255 else d + 2 ^ 255

module _ (d : ℕ) where
  testn255_small : d < 2 ^ 255 → testn255 d ≡ false
  testn255_small h = ground arith

  flip255_small : d < 2 ^ 255 → (testn255 (flip255 d) ≡ true) × (maskn255 (flip255 d) ≡ d)
  unfolding flip255
  flip255_small h = ground arith

quotient_of_product : (n d : ℕ) → 0 < d → n * d / d ≡ n
quotient_of_product n d h = mul-div_cancel n h

apply_to_magnitude-zero : (d : ℕ) → apply_to_magnitude 0 d ≡ 0
apply_to_magnitude-zero d = ground arith

apply_denominator-minus : (m d : ℕ) → apply_denominator (minus m) d ≡ minus (apply_to_magnitude m d)
unfolding apply_denominator
apply_denominator-minus zero d = rw (apply_to_magnitude-zero d)
apply_denominator-minus (suc m) d = refl

magnitude_round_trip :
    (n d : ℕ) → 0 < d → d < 2 ^ 255 → apply_to_magnitude (apply_to_magnitude n d) (flip255 d) ≡ n
magnitude_round_trip n d h k =
    let (set, same) = flip255_small d k in
    rw (testn255_small d k, set, same, quotient_of_product n d h)

-- Scaling an amount up by a denominator below 2 ^ 255 and applying the flipped denominator, as the
-- fee manager does, gives the amount back.
pub apply_denominator-flip255 :
    (n : ℤ) (d : ℕ)
    → 0 < d
    → d < 2 ^ 255
    → apply_denominator (apply_denominator n d) (flip255 d) ≡ n
unfolding apply_denominator
apply_denominator-flip255 (pos n) d h k = ap pos (magnitude_round_trip n d h k)
apply_denominator-flip255 (negsuc n) d h k =
    rw (apply_denominator-minus (apply_to_magnitude (suc n) d) (flip255 d))
      (ap minus (magnitude_round_trip (suc n) d h k))
