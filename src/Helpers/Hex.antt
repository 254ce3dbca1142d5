-- ===== src/Helpers/Hex.antt =====
-- `numToHex`, `flattenProof`, `encodeProof`, `buildPrefixedMemo` and `txToV2Format` of
-- zp-relayer/utils/helpers.ts.
pub mod Laws
use zeropool_relayer.Base.{
  ℤ, pos, negsuc, ◌-ℤ◌, neg, ltb_ℤ, ℕ, suc, ◌*◌, ◌^◌, Text, List, [], ◌∷◌, ◌++◌, slice, drop,
  if◌then◌else◌,
}
use zeropool_relayer.Helpers.TxTypes.{truncate_hex_prefix}
use zeropool_relayer.Numerals.{Numerals}

-- `SnarkProof` of libzkbob-rs: the decimal coordinates of three points.
pub record SnarkProof : Type 0 where
  pub a0 : Text
  pub a1 : Text
  pub b00 : Text
  pub b01 : Text
  pub b10 : Text
  pub b11 : Text
  pub c0 : Text
  pub c1 : Text

unfoldable pub flatten_proof : SnarkProof → List Text
flatten_proof p = p.a0 ∷ p.a1 ∷ p.b00 ∷ p.b01 ∷ p.b10 ∷ p.b11 ∷ p.c0 ∷ p.c1 ∷ []

unfoldable pub tx_to_v2_format : Text → Text → Text
tx_to_v2_format prefix tx = prefix ++ (slice 64 128 tx ++ (slice 0 64 tx ++ drop 128 tx))

module _ (num : Numerals) where
  -- `BN.toString('hex')`: a minus sign, then the digits of the absolute value.
  abbrev pub bn_to_hex : ℤ → Text
  bn_to_hex (pos n) = num.to_hex n
  bn_to_hex (negsuc n) = b'-' ∷ num.to_hex (suc n)

  -- the number that `numToHex` prints: a negative one is taken from 2 ^ (4 * pad)
  unfoldable pub complement : ℤ → ℕ → ℤ
  complement (pos n) pad = pos n
  complement (negsuc n) pad = pos (2 ^ (pad * 4)) -ℤ pos (suc n)

  -- `numToHex`; where the text is longer than `pad` it only writes to the log
  unfoldable pub num_to_hex : ℤ → ℕ → Text
  unfolding complement
  num_to_hex n pad = num.pad_left (bn_to_hex (complement n pad)) pad

  unfoldable pub encode_all : List Text → Text
  encode_all [] = []
  encode_all (n ∷ ns) = num_to_hex (pos (num.of_dec n)) 64 ++ encode_all ns

  unfoldable pub encode_proof : SnarkProof → Text
  unfolding encode_all flatten_proof
  encode_proof p = encode_all (flatten_proof p)

  unfoldable pub build_prefixed_memo : Text → Text → Text → Text
  build_prefixed_memo out_commit tx_hash truncated_memo =
      num_to_hex (pos (num.of_dec out_commit)) 64 ++ (truncate_hex_prefix tx_hash ++ truncated_memo)
