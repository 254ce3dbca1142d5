-- ===== src/Numerals/Positional.antt =====
-- A concrete printer of numbers, which shows that the assumptions of `Numerals` can be met.
use native.Mathlib.Nat.{div-add-mod, mod-lt, pow-suc, pow-zero}
use zeropool_relayer.Base.{
  ℕ, zero, suc, ◌+◌, ◌-◌, ◌*◌, ◌/◌, ◌%◌, ◌^◌, ◌≤◌, ◌<◌, ◌≡◌, refl, Text, [], ◌∷◌, ◌++◌, All,
  All-append, Bool-cases, inl, inr, length, length-append, replicate, ltb, if◌then◌else◌, arith,
}
use zeropool_relayer.Numerals.{Numerals}
use zeropool_relayer.Numerals.Value.{value, value_from, value_from-append, digit_value, IsDigit}

-- The character of a digit.
abbrev digit : ℕ → ℕ
digit d = if ltb d 10 then b'0' + d else 87 + d

unfoldable pub print_from : ℕ → ℕ → ℕ → Text
print_from base zero n = []
print_from base (suc fuel) n =
    let rest = print_from base fuel (n / base) in
    if ltb n base then digit n ∷ [] else rest ++ digit (n % base) ∷ []

unfoldable pub print : ℕ → ℕ → Text
unfolding print_from
print base n = print_from base (suc n) n

digit-IsDigit : (base d : ℕ) → base ≤ 16 → d < base → IsDigit base (digit d)
digit-IsDigit base d h k = ground arith

digit_value-digit : (d : ℕ) → d < 16 → digit_value (digit d) ≡ d
digit_value-digit d h = ground arith

module _ (base : ℕ) (lo : 2 ≤ base) (hi : base ≤ 16) where
  quotient_lt : (n : ℕ) → base ≤ n → n / base < n
  quotient_lt n h = grind (arith, div-add-mod n base)

  value-print_from : (fuel n : ℕ) → n < fuel → value base (print_from base fuel n) ≡ n
  unfolding value value_from print_from
  value-print_from zero n h = absurd (omega arith)
  value-print_from (suc fuel) n h = elim (Bool-cases (ltb n base)) [
    | inl small ↦ rw small (ground (arith, digit_value-digit n))
    | inr large ↦
        let more : base ≤ n = ground arith in
        let ih = value-print_from fuel (n / base) (omega (arith, quotient_lt n more)) in
        let bound : n % base < base = mod-lt n (omega arith) in
        rw
          (
            large,
            value_from-append base 0 (print_from base fuel (n / base)) (digit (n % base) ∷ []),
            ih,
          )
          (omega (arith, digit_value-digit (n % base) (omega arith), div-add-mod n base))
  ]

  print_from-IsDigit : (fuel n : ℕ) → All (IsDigit base) (print_from base fuel n)
  unfolding print_from
  print_from-IsDigit zero n = tt
  print_from-IsDigit (suc fuel) n = elim (Bool-cases (ltb n base)) [
    | inl small ↦ rw small (digit-IsDigit base n hi (ground arith), tt)
    | inr large ↦
        let bound : n % base < base = mod-lt n (omega arith) in
        rw large (
          All-append (IsDigit base) (print_from base fuel (n / base)) (digit (n % base) ∷ [])
            (print_from-IsDigit fuel (n / base)) (digit-IsDigit base (n % base) hi bound, tt))
  ]

  quotient_fits : (n k : ℕ) → n < base ^ suc k → n / base < base ^ k
  quotient_fits n k h =
      let p : n < base ^ k * base = rw (← pow-suc base k) h in
      let q = div-add-mod n base in grind arith

  length-print_from : (fuel n k : ℕ) → n < base ^ suc k → length (print_from base fuel n) ≤ suc k
  unfolding print_from
  length-print_from zero n k h = omega arith
  length-print_from (suc fuel) n zero h =
      let one : base ^ 1 ≡ base = rw (pow-suc base 0, pow-zero base) (omega arith) in
      let q : n < base = omega (arith, one) in
      ground (arith, length-append (print_from base fuel (n / base)) (digit (n % base) ∷ []))
  length-print_from (suc fuel) n (suc k) h = ground (
    arith,
    length-append (print_from base fuel (n / base)) (digit (n % base) ∷ []),
    length-print_from fuel (n / base) k (quotient_fits n (suc k) h),
  )

  pub value-print : (n : ℕ) → value base (print base n) ≡ n
  unfolding print
  value-print n = value-print_from (suc n) n (omega arith)

  pub print-IsDigit : (n : ℕ) → All (IsDigit base) (print base n)
  unfolding print
  print-IsDigit n = print_from-IsDigit (suc n) n

  pub length-print : (n k : ℕ) → n < base ^ suc k → length (print base n) ≤ suc k
  unfolding print
  length-print n k h = length-print_from (suc n) n k h

unfoldable pub pad : Text → ℕ → Text
pad s n = replicate (n - length s) b'0' ++ s

pub pad_lem : (s : Text) (n : ℕ) → pad s n ≡ replicate (n - length s) b'0' ++ s
unfolding pad
pad_lem s n = refl

pub two_le_ten : 2 ≤ 10
two_le_ten = omega arith

pub ten_le_sixteen : 10 ≤ 16
ten_le_sixteen = omega arith

pub two_le_sixteen : 2 ≤ 16
two_le_sixteen = omega arith

pub sixteen_le_sixteen : 16 ≤ 16
sixteen_le_sixteen = omega arith

unfoldable pub positional : Numerals
unfolding pad print value value_from
positional = record {
  to_hex = print 16;
  to_dec = print 10;
  pad_left = pad;
  of_dec = value 10;
  value-to_hex = value-print 16 two_le_sixteen sixteen_le_sixteen;
  to_hex-IsDigit = print-IsDigit 16 two_le_sixteen sixteen_le_sixteen;
  length-to_hex = length-print 16 two_le_sixteen sixteen_le_sixteen;
  value-to_dec = value-print 10 two_le_ten ten_le_sixteen;
  to_dec-IsDigit = print-IsDigit 10 two_le_ten ten_le_sixteen;
  of_dec-to_dec = value-print 10 two_le_ten ten_le_sixteen;
  pad_left-eq = pad_lem;
}
