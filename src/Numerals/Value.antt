-- ===== src/Numerals/Value.antt =====
-- The number that a text of digits stands for, and the order of texts.
use native.Mathlib.Nat.{pow-suc}
use zeropool_relayer.Base.{
  ℕ, zero, suc, ◌+◌, ◌-◌, ◌*◌, ◌^◌, ◌≤◌, ◌<◌, ◌≡◌, refl, ap, ◌⊎◌, Bool, true, false, Text, [], ◌∷◌,
  ◌++◌, All, length, replicate, ltb, leb, ◌==◌, if◌then◌else◌, arith,
}

-- The digit that a character stands for, in lower-case hexadecimal.
abbrev pub digit_value : ℕ → ℕ
digit_value c = if leb c b'9' then c - b'0' else c - 87

abbrev pub IsDigit : ℕ → ℕ → Type 0
IsDigit base c = ((b'0' ≤ c) × (c ≤ b'9') ⊎ (b'a' ≤ c) × (c ≤ b'f')) × (digit_value c < base)

unfoldable pub value_from : ℕ → ℕ → Text → ℕ
value_from base acc [] = acc
value_from base acc (c ∷ s) = value_from base (acc * base + digit_value c) s

unfoldable pub value : ℕ → Text → ℕ
unfolding value_from
value base s = value_from base 0 s

pub value_from-append :
    (base acc : ℕ) (s t : Text)
    → value_from base acc (s ++ t) ≡ value_from base (value_from base acc s) t
unfolding value_from
value_from-append base acc [] t = refl
value_from-append base acc (c ∷ s) t = value_from-append base (acc * base + digit_value c) s t

value_from-zeros :
    (base n : ℕ) (s : Text) → value_from base 0 (replicate n b'0' ++ s) ≡ value_from base 0 s
unfolding value_from
value_from-zeros base zero s = refl
value_from-zeros base (suc n) s =
    let start : 0 * base + 0 ≡ 0 = omega arith in rw (value_from, start) (value_from-zeros base n s)

-- Zeros in front do not change the value.
pub value-zeros : (base n : ℕ) (s : Text) → value base (replicate n b'0' ++ s) ≡ value base s
unfolding value
value-zeros = value_from-zeros

-- `s <= t` on strings in JavaScript: the order of the dictionary.
unfoldable pub text_le : Text → Text → Bool
text_le [] t = true
text_le (c ∷ s) [] = false
text_le (c ∷ s) (d ∷ t) = if c == d then text_le s t else ltb c d

-- One more digit d in front of a block of w values.
block_step :
    (acc d w v : ℕ)
    → d < 10
    → (acc * 10 + d) * w ≤ v
    → v < (acc * 10 + d + 1) * w
    → (acc * (w * 10) ≤ v) × (v < (acc + 1) * (w * 10))
block_step acc d w v h lo hi =
    let fits : (d + 1) * w ≤ 10 * w = grind arith in (omega arith, omega arith)

-- A text of k decimal digits after `acc` stays below the next block.
value_from_bounds :
    (acc : ℕ) (s : Text)
    → All (IsDigit 10) s
    → (acc * 10 ^ length s ≤ value_from 10 acc s)
      × (value_from 10 acc s < (acc + 1) * 10 ^ length s)
unfolding value_from
value_from_bounds acc [] h = omega arith
value_from_bounds acc (c ∷ s) h =
    let (lo, hi) = value_from_bounds (acc * 10 + digit_value c) s h.1 in
    rw (pow-suc 10 (length s)) (
      block_step acc (digit_value c) (10 ^ length s) (value_from 10 (acc * 10 + digit_value c) s)
        h.0.1 lo hi)

-- A smaller leading part gives a smaller value, whatever digits follow.
leading_lt :
    (a b : ℕ) (s t : Text)
    → All (IsDigit 10) s
    → All (IsDigit 10) t
    → length s ≡ length t
    → a < b
    → value_from 10 a s < value_from 10 b t
leading_lt a b s t hs ht e h =
    let below = (value_from_bounds a s hs).1 in
    let above = (value_from_bounds b t ht).0 in
    let same : 10 ^ length s ≡ 10 ^ length t = rw e in
    let step : (a + 1) * 10 ^ length t ≤ b * 10 ^ length t = grind arith in
    omega (arith, ap (λ (w : ℕ). (a + 1) * w) same)

digit_order :
    (c d : ℕ) → IsDigit 10 c → IsDigit 10 d → ltb c d ≡ ltb (digit_value c) (digit_value d)
digit_order c d h k = ground arith

digit_eq : (c d : ℕ) → IsDigit 10 c → IsDigit 10 d → digit_value c ≡ digit_value d → c ≡ d
digit_eq c d h k e = ground arith

-- Where two texts of decimal digits are equally long, the order of the dictionary is that of the
-- numbers.
text_le-value_from :
    (acc : ℕ) (s t : Text)
    → All (IsDigit 10) s
    → All (IsDigit 10) t
    → length s ≡ length t
    → text_le s t ≡ leb (value_from 10 acc s) (value_from 10 acc t)
unfolding text_le value_from
text_le-value_from acc [] [] hs ht e = ground arith
text_le-value_from acc [] (d ∷ t) hs ht e = absurd (omega arith)
text_le-value_from acc (c ∷ s) [] hs ht e = absurd (omega arith)
text_le-value_from acc (c ∷ s) (d ∷ t) hs ht e = ground (
  arith,
  text_le-value_from (acc * 10 + digit_value c) s t hs.1 ht.1,
  digit_order c d hs.0 ht.0,
  digit_eq c d hs.0 ht.0,
  leading_lt (acc * 10 + digit_value c) (acc * 10 + digit_value d) s t hs.1 ht.1,
  leading_lt (acc * 10 + digit_value d) (acc * 10 + digit_value c) t s ht.1 hs.1,
)

pub text_le-eq-leb :
    (s t : Text)
    → All (IsDigit 10) s
    → All (IsDigit 10) t
    → length s ≡ length t
    → text_le s t ≡ leb (value 10 s) (value 10 t)
unfolding value
text_le-eq-leb = text_le-value_from 0
