-- ===== src/Calldata.antt =====
-- The calldata of a transaction: `buildNormalTx` of zp-relayer/pool/DefaultPool.ts and
-- pool/RelayPool.ts, and the readers of utils/PoolCalldataParser.ts.
pub mod Pieces
pub mod RoundTrip
pub mod DefaultRoundTrip
use zeropool_relayer.Base.{
  ℤ, pos, ℕ, zero, suc, ◌*◌, ◌/◌, ◌+◌, Bool, String, Text, codes, List, [], ◌∷◌, ◌++◌, length,
  slice, Option, none, some, get_elem?, Outcome, ok, throws, error, ◌>>=◌,
}
use zeropool_relayer.Calldata.Pieces.{join}
use zeropool_relayer.Helpers.TxTypes.{
  TxType, tx_type_text, to_tx_type, truncate_hex_prefix, truncate_memo_tx_prefix,
  truncate_memo_tx_prefix_prover_v2,
}
use zeropool_relayer.Helpers.Hex.{SnarkProof, num_to_hex, encode_proof}
use zeropool_relayer.Numerals.{Numerals}
use zeropool_relayer.Pool.Types.{
  Proof, PoolTx, Delta, ProcessResult, TxProofField, nullifier, out_commit, delta,
  get_tx_proof_field,
}

-- A field's place in the calldata, in bytes.
pub record Place : Type 0 where
  pub start : ℕ
  pub size : ℕ

pub data Field : Type 0 where
  selector nullifier_field out_commit_field tx_type_field memo_size_field memo_field : Field

-- `FIELDS`
unfoldable pub fields : Field → Place
fields selector = record { start = 0; size = 4 }
fields nullifier_field = record { start = 4; size = 32 }
fields out_commit_field = record { start = 36; size = 32 }
fields tx_type_field = record { start = 640; size = 2 }
fields memo_size_field = record { start = 642; size = 2 }
fields memo_field = record { start = 644; size = 0 }

-- `FIELDS_V2`
unfoldable pub fields_v2 : Field → Place
fields_v2 selector = record { start = 0; size = 4 }
fields_v2 nullifier_field = record { start = 5; size = 32 }
fields_v2 out_commit_field = record { start = 37; size = 32 }
fields_v2 tx_type_field = record { start = 353; size = 2 }
fields_v2 memo_size_field = record { start = 355; size = 2 }
fields_v2 memo_field = record { start = 357; size = 0 }

-- `defaultSize || size`
abbrev pub size_or : Option ℕ → ℕ → ℕ
size_or none size = size
size_or (some zero) size = size
size_or (some (suc n)) size = suc n

-- The `getField` of both parsers, on their table. The buffer is kept as its hexadecimal text, two
-- digits for a byte.
unfoldable pub get_field : (Field → Place) → Text → Field → Option ℕ → Text
get_field table calldata f default_size =
    let place = table f in
    codes "0x"
    ++ slice (2 * place.start) (2 * (place.start + size_or default_size place.size)) calldata

-- the `push` of the deposit signature; an empty one is left out
unfoldable pub signature_pieces : Option Text → List Text
unfolding truncate_hex_prefix
signature_pieces none = []
signature_pieces (some []) = []
signature_pieces (some (c ∷ s)) = truncate_hex_prefix (c ∷ s) ∷ []

-- What `addTxToState` of pool/BasePool.ts reads from the calldata of a transaction.
pub record ReadTx : Type 0 where
  pub out_commit : Text
  pub nullifier : Text
  pub memo : Text

module _ (num : Numerals) where
  -- `memoSize`
  abbrev pub memo_size : Text → Text
  memo_size memo = num_to_hex num (pos (length memo / 2)) 4

  -- the `data` of the default pool
  unfoldable pub transact_pieces :
      Text
      → Text
      → Text
      → Delta
      → SnarkProof
      → Text
      → SnarkProof
      → TxType
      → Text
      → Option Text
      → List Text
  unfolding num_to_hex encode_proof signature_pieces
  transact_pieces sel n o d proof root_after tree_proof tx_type memo signature =
      sel
      ∷ num_to_hex num (pos (num.of_dec n)) 64
      ∷ num_to_hex num (pos (num.of_dec o)) 64
      ∷ num_to_hex num d.transfer_index 12
      ∷ num_to_hex num d.energy_amount 28
      ∷ num_to_hex num d.token_amount 16
      ∷ encode_proof num proof
      ∷ num_to_hex num (pos (num.of_dec root_after)) 64
      ∷ encode_proof num tree_proof
      ∷ tx_type_text tx_type
      ∷ memo_size memo
      ∷ memo
      ∷ signature_pieces signature

  -- the `data` of the relay pool
  unfoldable pub transact_v2_pieces :
      Text → Text → Text → Delta → SnarkProof → TxType → Text → Option Text → List Text
  unfolding num_to_hex encode_proof signature_pieces
  transact_v2_pieces sel n o d proof tx_type memo signature =
      sel
      ∷ num_to_hex num (pos 2) 2
      ∷ num_to_hex num (pos (num.of_dec n)) 64
      ∷ num_to_hex num (pos (num.of_dec o)) 64
      ∷ num_to_hex num d.transfer_index 12
      ∷ num_to_hex num d.energy_amount 28
      ∷ num_to_hex num d.token_amount 16
      ∷ encode_proof num proof
      ∷ tx_type_text tx_type
      ∷ memo_size memo
      ∷ memo
      ∷ signature_pieces signature

  -- `buildNormalTx` of the default pool; `get_tree_proof` gives the tree proof and the commit index,
  -- and `function_signature` is web3's `encodeFunctionSignature`
  unfoldable pub build_normal_tx :
      (Text → Delta)
      → (String → Text)
      → (Text → Outcome (Proof × ℕ))
      → PoolTx
      → Outcome ProcessResult
  unfolding get_tx_proof_field transact_pieces truncate_memo_tx_prefix ◌>>=◌
  build_normal_tx parse_delta function_signature get_tree_proof tx =
      get_tx_proof_field tx.proof nullifier >>= λ n. get_tx_proof_field tx.proof out_commit >>= λ o.
      get_tx_proof_field tx.proof delta >>= λ d. get_tree_proof o >>= λ t.
      elim (get_elem? t.0.inputs 1) [
        | none ↦ throws (error "toBN of undefined")
        | some root_after ↦ ok (record {
          calldata = join (
              transact_pieces (function_signature "transact()") n o (parse_delta d) tx.proof.proof
                root_after t.0.proof tx.tx_type tx.memo tx.deposit_signature);
          func = "transact()";
          nullifier = some n;
          out_commit = o;
          memo = truncate_memo_tx_prefix tx.memo tx.tx_type;
          commit_index = t.1;
        })
      ]

  -- `buildNormalTx` of the relay pool, on the index of `assumeNextPendingTxIndex`
  unfoldable pub build_normal_tx_v2 :
      (Text → Delta) → (String → Text) → Outcome ℕ → PoolTx → Outcome ProcessResult
  unfolding get_tx_proof_field transact_v2_pieces truncate_memo_tx_prefix_prover_v2 ◌>>=◌
  build_normal_tx_v2 parse_delta function_signature next_index tx =
      get_tx_proof_field tx.proof nullifier >>= λ n. get_tx_proof_field tx.proof out_commit >>= λ o.
      get_tx_proof_field tx.proof delta >>= λ d. next_index >>= λ commit_index. ok (record {
        calldata = join (
            transact_v2_pieces (function_signature "transactV2()") n o (parse_delta d)
              tx.proof.proof tx.tx_type tx.memo tx.deposit_signature);
        func = "transactV2()";
        nullifier = some n;
        out_commit = o;
        memo = truncate_memo_tx_prefix_prover_v2 tx.memo tx.tx_type;
        commit_index = commit_index;
      })

  -- The branches of `addTxToState` for both selectors, on the parser's table and the cut of the memo.
  -- `hex_to_number` is web3's `hexToNumber`, and `hexToNumberString` prints its number.
  unfoldable pub read_tx :
      (Text → ℕ) → (Field → Place) → (Text → TxType → Text) → Text → Outcome ReadTx
  unfolding get_field to_tx_type truncate_hex_prefix ◌>>=◌
  read_tx hex_to_number table truncate_memo input =
      let calldata = truncate_hex_prefix input in
      let memo_size = hex_to_number (get_field table calldata memo_size_field none) in
      to_tx_type (get_field table calldata tx_type_field none) >>= λ tx_type. ok (record {
        out_commit = num.to_dec (hex_to_number (get_field table calldata out_commit_field none));
        nullifier = num.to_dec (hex_to_number (get_field table calldata nullifier_field none));
        memo =
            truncate_memo
              (truncate_hex_prefix (get_field table calldata memo_field (some memo_size))) tx_type;
      })
