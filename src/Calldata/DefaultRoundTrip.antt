-- ===== src/Calldata/DefaultRoundTrip.antt =====
-- What the default pool reads back from the calldata that it built, where a second proof and a root
-- stand between the fields.
use zeropool_relayer.Base.{
  pos, ℕ, ◌+◌, ◌*◌, ◌/◌, ◌^◌, ◌<◌, ◌≡◌, refl, ap, Text, codes, All, List, ◌++◌, length, slice,
  Option, some, ok, arith,
}
use zeropool_relayer.Calldata.{fields, size_or, get_field, transact_pieces, memo_size, read_tx}
use zeropool_relayer.Calldata.Pieces.{join, slice-join}
use zeropool_relayer.Calldata.RoundTrip.{
  Encodable, ReadsHex, read_fields, width, length-encode_proof, length-tx_type_text, size_or-zero,
}
use zeropool_relayer.Helpers.Hex.{SnarkProof, num_to_hex, flatten_proof}
use zeropool_relayer.Helpers.Hex.Laws.{length-num_to_hex_pos}
use zeropool_relayer.Helpers.TxTypes.{TxType, tx_type_text}
use zeropool_relayer.Numerals.{Numerals}
use zeropool_relayer.Pool.Types.{Delta}

module _ (num : Numerals) (n o : Text) (d : Delta) (proof : SnarkProof) (root_after : Text)
    (tree_proof : SnarkProof) (t : TxType) (memo : Text) (signature : Option Text) (body : Text)
    (e : Encodable num n o d proof memo) (root_fits : num.of_dec root_after < 16 ^ 64)
    (tree_fits : All (λ x. num.of_dec x < 16 ^ 64) (flatten_proof tree_proof))
    (selector_width : length body ≡ 8) where
  -- the calldata without its prefix 0x
  abbrev pieces : List Text
  pieces = transact_pieces num body n o d proof root_after tree_proof t memo signature

  Slices : Type 0
  Slices =
      (slice 8 72 (join pieces) ≡ num_to_hex num (pos (num.of_dec n)) 64)
      × (slice 72 136 (join pieces) ≡ num_to_hex num (pos (num.of_dec o)) 64)
      × (slice 1280 1284 (join pieces) ≡ tx_type_text t)
      × (slice 1284 1288 (join pieces) ≡ memo_size num memo)
      × (slice 1288 (1288 + 2 * e.bytes) (join pieces) ≡ memo)

  slices : Slices
  unfolding Slices transact_pieces
  slices =
      let sn = length-num_to_hex_pos num (num.of_dec n) 63 e.nullifier in
      let so = length-num_to_hex_pos num (num.of_dec o) 63 e.out_commit in
      let s1 = width num d.transfer_index 11 e.transfer_index in
      let s2 = width num d.energy_amount 27 e.energy_amount in
      let s3 = width num d.token_amount 15 e.token_amount in
      let sp = length-encode_proof num proof e.coordinates in
      let sr = length-num_to_hex_pos num (num.of_dec root_after) 63 root_fits in
      let sq = length-encode_proof num tree_proof tree_fits in
      let st = length-tx_type_text t in
      let sm = length-num_to_hex_pos num (length memo / 2) 3 (omega (arith, e.whole, e.short)) in
      (
        slice-join pieces 1 8 72 _ refl (omega arith) (omega arith),
        slice-join pieces 2 72 136 _ refl (omega arith) (omega arith),
        slice-join pieces 9 1280 1284 _ refl (omega arith) (omega arith),
        slice-join pieces 10 1284 1288 _ refl (omega arith) (omega arith),
        slice-join pieces 11 1288 (1288 + 2 * e.bytes) _ refl (omega arith)
            (omega (arith, e.whole)),
      )

  memo_end : 2 * (644 + size_or (some e.bytes) 0) ≡ 1288 + 2 * e.bytes
  memo_end = omega (arith, size_or-zero e.bytes)

  -- The default pool reads back what it wrote, where the numbers fit their places: the commitment, the
  -- nullifier and the memo.
  pub transact_round_trip :
      (hex_to_number : Text → ℕ) (truncate_memo : Text → TxType → Text)
      → ReadsHex num hex_to_number
      → read_tx num hex_to_number fields truncate_memo (codes "0x" ++ join pieces)
        ≡ ok (record {
          out_commit = num.to_dec (num.of_dec o);
          nullifier = num.to_dec (num.of_dec n);
          memo = truncate_memo memo t;
        })
  unfolding get_field fields Slices
  transact_round_trip hex_to_number truncate_memo reads =
      let (sn, so, st, ss, sm) = slices in
      read_fields num hex_to_number fields truncate_memo (join pieces) (num.of_dec n) (num.of_dec o)
        t memo e.bytes reads e.nullifier e.out_commit e.whole e.short (ap (λ x. codes "0x" ++ x) sn)
        (ap (λ x. codes "0x" ++ x) so) (ap (λ x. codes "0x" ++ x) st) (ap (λ x. codes "0x" ++ x) ss)
        (ap (λ x. codes "0x" ++ x) (rw memo_end sm))
