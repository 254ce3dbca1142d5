-- ===== src/Numerals.antt =====
-- What bn.js and web3-utils give for printing and padding numbers: a parameter of the modules that
-- call it. `BN.toString(10)` and `BN.toString('hex')` print digits of a number, and `padLeft` puts
-- zeros in front.
pub mod Value
pub mod Positional
use zeropool_relayer.Base.{
  ℕ, suc, ◌+◌, ◌-◌, ◌^◌, ◌≤◌, ◌<◌, ◌≡◌, Text, List, ◌++◌, All, length, replicate,
}
use zeropool_relayer.Numerals.Value.{value, IsDigit}

pub record Numerals : Type 0 where
  -- `BN.toString('hex')` and `BN.toString(10)` of a number that is not negative
  pub to_hex : ℕ → Text
  pub to_dec : ℕ → Text
  -- `padLeft(s, n)`
  pub pad_left : Text → ℕ → Text
  -- `toBN(s)` of a decimal text
  pub of_dec : Text → ℕ
  pub value-to_hex : (n : ℕ) → value 16 (to_hex n) ≡ n
  pub to_hex-IsDigit : (n : ℕ) → All (IsDigit 16) (to_hex n)
  pub length-to_hex : (n k : ℕ) → n < 16 ^ suc k → length (to_hex n) ≤ suc k
  pub value-to_dec : (n : ℕ) → value 10 (to_dec n) ≡ n
  pub to_dec-IsDigit : (n : ℕ) → All (IsDigit 10) (to_dec n)
  pub of_dec-to_dec : (n : ℕ) → of_dec (to_dec n) ≡ n
  pub pad_left-eq : (s : Text) (n : ℕ) → pad_left s n ≡ replicate (n - length s) b'0' ++ s
