-- ===== src/Fee/Calldata.antt =====
-- The price of calldata: its bounds, and the division that the Optimism manager makes.
use native.Mathlib.Nat.{div-div-eq-div-mul, mul-div-mul_right}
use zeropool_relayer.Base.{
  ℕ, ◌≤◌, ◌*◌, ◌/◌, ◌+◌, ◌^◌, ◌≡◌, ap, ◌∙◌, List, [], ◌∷◌, ◌++◌, length, arith,
}
use zeropool_relayer.Fee.Dynamic.{Oracle, bytes_gas, l1_gas_used, l1_fee, nzero_byte_gas}

-- Each byte costs from 4 to 16.
bytes_gas-bounds :
    (bytes : List ℕ) → (4 * length bytes ≤ bytes_gas bytes) × (bytes_gas bytes ≤ 16 * length bytes)
unfolding bytes_gas
bytes_gas-bounds [] = (omega arith, omega arith)
bytes_gas-bounds (b ∷ bytes) = ground (arith, bytes_gas-bounds bytes)

bytes_gas-append : (xs ys : List ℕ) → bytes_gas (xs ++ ys) ≡ bytes_gas xs + bytes_gas ys
unfolding bytes_gas
bytes_gas-append [] ys = omega arith
bytes_gas-append (x ∷ xs) ys = ground (arith, bytes_gas-append xs ys)

sixteen_out : (a b s : ℕ) → a * (b * 16) * s ≡ a * b * s * 16
sixteen_out a b s = omega arith

-- The gas of calldata lies between 4 and 16 for each byte, over the oracle's overhead, and that of
-- calldata in two parts is the sum.
pub l1_gas_used_lem :
    (oracle : Oracle) (xs ys : List ℕ)
    → (oracle.overhead + 4 * length xs ≤ l1_gas_used oracle xs)
      × (l1_gas_used oracle xs ≤ oracle.overhead + 16 * length xs)
      × (l1_gas_used oracle (xs ++ ys) ≡ l1_gas_used oracle xs + bytes_gas ys)
unfolding l1_gas_used
l1_gas_used_lem oracle xs ys =
    let (low, high) = bytes_gas-bounds xs in
    (omega arith, omega arith, omega (arith, bytes_gas-append xs ys))

-- The fee at 16 times a base fee is, divided by 16, exactly the fee at that base fee.
pub l1_fee_exact :
    (oracle : Oracle) (bytes : List ℕ) (l1_base_fee : ℕ)
    → l1_fee oracle bytes (l1_base_fee * nzero_byte_gas) / nzero_byte_gas
      ≡ l1_fee oracle bytes l1_base_fee
unfolding l1_fee
l1_fee_exact oracle bytes l1_base_fee =
    let used = l1_gas_used oracle bytes in
    let d = 10 ^ oracle.decimals in
    div-div-eq-div-mul (used * (l1_base_fee * 16) * oracle.scalar) d 16
    ∙ ap (λ n. n / (d * 16)) (sixteen_out used l1_base_fee oracle.scalar)
    ∙ mul-div-mul_right (used * l1_base_fee * oracle.scalar) d (omega arith)
