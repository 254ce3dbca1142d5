-- ===== src/Calldata/RoundTrip.antt =====
-- What a pool reads back from the calldata that it built.
use zeropool_relayer.Base.{
  ℤ, pos, pos_part, neg_part, ℕ, zero, suc, ◌+◌, ◌*◌, ◌/◌, ◌^◌, ◌<◌, ◌≤◌, ◌≡◌, refl, ap, ◌∙◌, Text,
  codes, All, All-append, replicate, inl, List, [], ◌∷◌, ◌++◌, length, slice, Option, none, some,
  ok, >>=-of-ok, length-append, arith,
}
use zeropool_relayer.Calldata.{
  Field, Place, fields_v2, nullifier_field, out_commit_field, tx_type_field, memo_size_field,
  memo_field, size_or, get_field, transact_v2_pieces, memo_size, read_tx,
}
use zeropool_relayer.Calldata.Pieces.{join, slice-join}
use zeropool_relayer.Helpers.Hex.{SnarkProof, num_to_hex, encode_proof, encode_all, flatten_proof}
use zeropool_relayer.Helpers.Hex.Laws.{num_to_hex_lem, length-num_to_hex_pos}
use zeropool_relayer.Helpers.TxTypes.{
  TxType, deposit, transfer, withdrawal, permittable_deposit, tx_type_text, to_tx_type,
  truncate_hex_prefix,
}
use zeropool_relayer.Numerals.{Numerals}
use zeropool_relayer.Numerals.Value.{value, IsDigit}
use zeropool_relayer.Pool.Types.{Delta}

-- A number that fits its digits.
abbrev pub Fits : ℤ → ℕ → Type 0
Fits n pad = (pos_part n < 16 ^ pad) × (neg_part n ≤ 16 ^ pad)

pub length-tx_type_text : (t : TxType) → length (tx_type_text t) ≡ 4
length-tx_type_text deposit = refl
length-tx_type_text transfer = refl
length-tx_type_text withdrawal = refl
length-tx_type_text permittable_deposit = refl

to_tx_type-text : (t : TxType) → to_tx_type (codes "0x" ++ tx_type_text t) ≡ ok t
unfolding to_tx_type
to_tx_type-text deposit = refl
to_tx_type-text transfer = refl
to_tx_type-text withdrawal = refl
to_tx_type-text permittable_deposit = refl

truncate_prefixed : (s : Text) → truncate_hex_prefix (codes "0x" ++ s) ≡ s
unfolding truncate_hex_prefix
truncate_prefixed s = refl

pub size_or-zero : (o : ℕ) → size_or (some o) 0 ≡ o
size_or-zero zero = refl
size_or-zero (suc n) = refl

module _ (num : Numerals) where
  -- The numbers of a transaction fit their places, and the memo is whole bytes, at most 65535.
  pub record Encodable (n o : Text) (d : Delta) (proof : SnarkProof) (memo : Text) : Type 0 where
    pub nullifier : num.of_dec n < 16 ^ 64
    pub out_commit : num.of_dec o < 16 ^ 64
    pub transfer_index : Fits d.transfer_index 12
    pub energy_amount : Fits d.energy_amount 28
    pub token_amount : Fits d.token_amount 16
    pub coordinates : All (λ x. num.of_dec x < 16 ^ 64) (flatten_proof proof)
    pub bytes : ℕ
    pub whole : length memo ≡ 2 * bytes
    pub short : bytes < 16 ^ 4

  pub width : (n : ℤ) (k : ℕ) → Fits n (suc k) → length (num_to_hex num n (suc k)) ≡ suc k
  width n k (h, g) = (num_to_hex_lem num n k h g).0

  length-encode_all :
      (xs : List Text)
      → All (λ x. num.of_dec x < 16 ^ 64) xs
      → length (encode_all num xs) ≡ 64 * length xs
  unfolding encode_all
  length-encode_all [] h = refl
  length-encode_all (x ∷ xs) (h, hs) = omega (
    arith,
    length-append (num_to_hex num (pos (num.of_dec x)) 64) (encode_all num xs),
    length-num_to_hex_pos num (num.of_dec x) 63 h,
    length-encode_all xs hs,
  )

  pub length-encode_proof :
      (p : SnarkProof)
      → All (λ x. num.of_dec x < 16 ^ 64) (flatten_proof p)
      → length (encode_proof num p) ≡ 512
  unfolding encode_proof flatten_proof
  length-encode_proof p h = length-encode_all (flatten_proof p) h

  number : (n k : ℕ) → n < 16 ^ suc k → value 16 (num_to_hex num (pos n) (suc k)) ≡ n
  number n k h = (num_to_hex_lem num (pos n) k h (omega arith)).1

  All-zeros : (k : ℕ) → All (IsDigit 16) (replicate k b'0')
  All-zeros zero = tt
  All-zeros (suc k) = ((inl (omega arith, omega arith), omega arith), All-zeros k)

  pub num_to_hex-IsDigit : (n k : ℕ) → All (IsDigit 16) (num_to_hex num (pos n) k)
  unfolding num_to_hex
  num_to_hex-IsDigit n k =
      rw (num.pad_left-eq (num.to_hex n) k)
        (All-append (IsDigit 16) _ (num.to_hex n) (All-zeros _) (num.to_hex-IsDigit n))

  -- `hexToNumber` gives the value of digits behind 0x.
  abbrev pub ReadsHex : (Text → ℕ) → Type 0
  ReadsHex hex_to_number =
      (s : Text) → All (IsDigit 16) s → hex_to_number (codes "0x" ++ s) ≡ value 16 s

  -- Reading the fields of a transaction, each found at its place.
  pub read_fields :
      (hex_to_number : Text → ℕ) (table : Field → Place) (truncate_memo : Text → TxType → Text)
      (calldata : Text) (n o : ℕ) (t : TxType) (memo : Text) (bytes : ℕ)
      → ReadsHex hex_to_number
      → n < 16 ^ 64
      → o < 16 ^ 64
      → length memo ≡ 2 * bytes
      → bytes < 16 ^ 4
      → get_field table calldata nullifier_field none ≡ codes "0x" ++ num_to_hex num (pos n) 64
      → get_field table calldata out_commit_field none ≡ codes "0x" ++ num_to_hex num (pos o) 64
      → get_field table calldata tx_type_field none ≡ codes "0x" ++ tx_type_text t
      → get_field table calldata memo_size_field none ≡ codes "0x" ++ memo_size num memo
      → get_field table calldata memo_field (some bytes) ≡ codes "0x" ++ memo
      → read_tx num hex_to_number table truncate_memo (codes "0x" ++ calldata)
        ≡ ok (record {
          out_commit = num.to_dec o;
          nullifier = num.to_dec n;
          memo = truncate_memo memo t;
        })
  unfolding read_tx truncate_hex_prefix
  read_fields hex_to_number table truncate_memo calldata n o t memo bytes reads nn oo whole short fn
        fo ft fs fm =
      let size : hex_to_number (get_field table calldata memo_size_field none) ≡ bytes = rw fs (
        reads (memo_size num memo) (num_to_hex-IsDigit (length memo / 2) 4)
        ∙ number (length memo / 2) 3 (omega arith)
        ∙ omega arith) in
      let value_n : hex_to_number (get_field table calldata nullifier_field none) ≡ n =
        rw fn (reads _ (num_to_hex-IsDigit n 64) ∙ number n 63 nn) in
      let value_o : hex_to_number (get_field table calldata out_commit_field none) ≡ o =
        rw fo (reads _ (num_to_hex-IsDigit o 64) ∙ number o 63 oo) in
      let raw : truncate_hex_prefix (get_field table calldata memo_field (some bytes)) ≡ memo =
        ap truncate_hex_prefix fm in
      >>=-of-ok (to_tx_type (get_field table calldata tx_type_field none)) _ t
        (ap to_tx_type ft ∙ to_tx_type-text t) (rw (size, value_n, value_o, raw))

  module _ (n o : Text) (d : Delta) (proof : SnarkProof) (t : TxType) (memo : Text)
      (signature : Option Text) (body : Text) (e : Encodable n o d proof memo)
      (selector_width : length body ≡ 8) where
    -- the calldata without its prefix 0x
    abbrev pieces_v2 : List Text
    pieces_v2 = transact_v2_pieces num body n o d proof t memo signature

    sizes :
        (length (num_to_hex num (pos (num.of_dec n)) 64) ≡ 64)
        × (length (num_to_hex num (pos (num.of_dec o)) 64) ≡ 64)
        × (length (num_to_hex num d.transfer_index 12) ≡ 12)
        × (length (num_to_hex num d.energy_amount 28) ≡ 28)
        × (length (num_to_hex num d.token_amount 16) ≡ 16)
        × (length (memo_size num memo) ≡ 4)
    sizes = (
      length-num_to_hex_pos num (num.of_dec n) 63 e.nullifier,
      length-num_to_hex_pos num (num.of_dec o) 63 e.out_commit,
      width d.transfer_index 11 e.transfer_index,
      width d.energy_amount 27 e.energy_amount,
      width d.token_amount 15 e.token_amount,
      length-num_to_hex_pos num (length memo / 2) 3 (omega (arith, e.whole, e.short)),
    )

    SlicesV2 : Type 0
    SlicesV2 =
        (slice 10 74 (join pieces_v2) ≡ num_to_hex num (pos (num.of_dec n)) 64)
        × (slice 74 138 (join pieces_v2) ≡ num_to_hex num (pos (num.of_dec o)) 64)
        × (slice 706 710 (join pieces_v2) ≡ tx_type_text t)
        × (slice 710 714 (join pieces_v2) ≡ memo_size num memo)
        × (slice 714 (714 + 2 * e.bytes) (join pieces_v2) ≡ memo)

    slices_v2 : SlicesV2
    unfolding SlicesV2 transact_v2_pieces
    slices_v2 =
        let (sn, so, s1, s2, s3, sm) = sizes in
        let sv = length-num_to_hex_pos num 2 1 (omega arith) in
        let sp = length-encode_proof proof e.coordinates in
        let st = length-tx_type_text t in
        (
          slice-join pieces_v2 2 10 74 _ refl (omega arith) (omega arith),
          slice-join pieces_v2 3 74 138 _ refl (omega arith) (omega arith),
          slice-join pieces_v2 8 706 710 _ refl (omega arith) (omega arith),
          slice-join pieces_v2 9 710 714 _ refl (omega arith) (omega arith),
          slice-join pieces_v2 10 714 (714 + 2 * e.bytes) _ refl (omega arith) (omega arith),
        )

    memo_place :
        (from : ℕ) (calldata : Text)
        → slice (2 * from) (2 * from + 2 * e.bytes) calldata ≡ memo
        → slice (2 * from) (2 * (from + size_or (some e.bytes) 0)) calldata ≡ memo
    memo_place from calldata h =
        let same : 2 * (from + size_or (some e.bytes) 0) ≡ 2 * from + 2 * e.bytes =
          omega (arith, size_or-zero e.bytes) in
        rw same h

    -- The relay pool reads back what it wrote, where the numbers fit their places: the commitment, the
    -- nullifier and the memo.
    pub transact_v2_round_trip :
        (hex_to_number : Text → ℕ) (truncate_memo : Text → TxType → Text)
        → ReadsHex hex_to_number
        → read_tx num hex_to_number fields_v2 truncate_memo (codes "0x" ++ join pieces_v2)
          ≡ ok (record {
            out_commit = num.to_dec (num.of_dec o);
            nullifier = num.to_dec (num.of_dec n);
            memo = truncate_memo memo t;
          })
    unfolding get_field fields_v2 SlicesV2
    transact_v2_round_trip hex_to_number truncate_memo reads =
        let (sn, so, st, ss, sm) = slices_v2 in
        read_fields hex_to_number fields_v2 truncate_memo (join pieces_v2) (num.of_dec n)
          (num.of_dec o) t memo e.bytes reads e.nullifier e.out_commit e.whole e.short
          (ap (λ x. codes "0x" ++ x) sn) (ap (λ x. codes "0x" ++ x) so)
          (ap (λ x. codes "0x" ++ x) st) (ap (λ x. codes "0x" ++ x) ss)
          (ap (λ x. codes "0x" ++ x) (memo_place 357 (join pieces_v2) sm))
