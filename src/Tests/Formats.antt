-- ===== src/Tests/Formats.antt =====
-- The theorems on calldata, memos and signatures.
use zeropool_relayer.Base.{
  ℕ, ◌<◌, ◌^◌, ◌≡◌, refl, Text, codes, All, [], ◌∷◌, ◌++◌, drop, replicate, length, none, ok, arith,
}
use zeropool_relayer.Calldata.{fields_v2, transact_v2_pieces, read_tx}
use zeropool_relayer.Calldata.Pieces.{join}
use zeropool_relayer.Calldata.RoundTrip.{Encodable, ReadsHex, transact_v2_round_trip}
use zeropool_relayer.Helpers.Hex.{flatten_proof}
use zeropool_relayer.Helpers.Signature.{unpack_signature}
use zeropool_relayer.Helpers.TxTypes.{
  transfer, truncate_hex_prefix, truncate_memo_tx_prefix_prover_v2,
}
use zeropool_relayer.Memo.{TxDataProverV2, nothing, get_tx_data_prover_v2}
use zeropool_relayer.Memo.Layout.{IsWellFormed, prefix_bytes, get_tx_data_prover_v2-prefix_bytes}
use zeropool_relayer.Numerals.Value.{value}
use zeropool_relayer.Numerals.Positional.{positional}
use zeropool_relayer.Tests.Data.{one, no_delta, snark_proof}

abbrev selector : Text
selector = codes "af989083"

abbrev pub memo : Text
memo = codes "abcdef"

abbrev pub hex_to_number : Text → ℕ
hex_to_number s = value 16 (drop 2 s)

pub fits : Encodable positional one one no_delta snark_proof memo
unfolding positional
fits = record {
  nullifier = omega arith;
  out_commit = omega arith;
  transfer_index = (omega arith, omega arith);
  energy_amount = (omega arith, omega arith);
  token_amount = (omega arith, omega arith);
  coordinates =
      unfold flatten_proof in
      (
        omega arith,
        (
          omega arith,
          (
            omega arith,
            (omega arith, (omega arith, (omega arith, (omega arith, (omega arith, tt))))),
          ),
        ),
      );
  bytes = 3;
  whole = refl;
  short = omega arith;
}

pub reads : ReadsHex positional hex_to_number
reads s h = refl

transact_v2_round_trip_example :
    read_tx positional hex_to_number fields_v2 truncate_memo_tx_prefix_prover_v2 (
      codes "0x"
      ++ join
          (transact_v2_pieces positional selector one one no_delta snark_proof transfer memo none))
    ≡ ok (record {
      out_commit = positional.to_dec (positional.of_dec one);
      nullifier = positional.to_dec (positional.of_dec one);
      memo = truncate_memo_tx_prefix_prover_v2 memo transfer;
    })
transact_v2_round_trip_example =
    transact_v2_round_trip positional one one no_delta snark_proof transfer memo none selector fits
      refl hex_to_number truncate_memo_tx_prefix_prover_v2 reads

pub coordinates : All (λ x. positional.of_dec x < 16 ^ 64) (flatten_proof snark_proof)
coordinates = fits.coordinates

pub one_fits : positional.of_dec one < 16 ^ 64
one_fits = fits.nullifier

hash_width : length (truncate_hex_prefix (replicate 64 b'a')) ≡ 64
unfolding truncate_hex_prefix
hash_width = refl

abbrev packed : Text
packed = replicate 130 b'0'

unpacked : unpack_signature positional hex_to_number packed ≡ ok (codes "0x" ++ packed)
unfolding unpack_signature
unpacked = refl

abbrev tx_data : TxDataProverV2
tx_data = record {
  proxy_address = replicate 20 1;
  prover_address = replicate 20 2;
  transact_fee = 300;
  tree_update_fee = 7;
  extra = nothing;
}

tx_data_IsWellFormed : IsWellFormed transfer tx_data
tx_data_IsWellFormed = record {
  proxy = refl;
  prover = refl;
  fee = omega arith;
  tree_fee = omega arith;
  extra = tt;
}

get_tx_data_prover_v2-prefix_bytes_example :
    get_tx_data_prover_v2 (prefix_bytes tx_data ++ (9 ∷ [])) transfer ≡ ok tx_data
get_tx_data_prover_v2-prefix_bytes_example =
    get_tx_data_prover_v2-prefix_bytes transfer tx_data (9 ∷ []) tx_data_IsWellFormed
