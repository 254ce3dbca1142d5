-- ===== src/Sync/Confirmed.antt =====
-- A transaction that the default pool built and confirmed itself, and the same transaction found in the
-- contract's events by a pool that synchronises.
use zeropool_relayer.Base.{
  ℕ, ◌+◌, ◌-◌, ◌*◌, ◌/◌, ◌^◌, ◌<◌, ◌≡◌, refl, ap, sym, ◌∙◌, String, Text, codes, All, [], ◌∷◌, ◌++◌,
  starts_with, get_elem?, some, Outcome, ok, arith, >>=-of-ok,
}
use zeropool_relayer.Calldata.{fields, build_normal_tx, transact_pieces}
use zeropool_relayer.Calldata.Pieces.{join}
use zeropool_relayer.Calldata.RoundTrip.{Encodable, ReadsHex}
use zeropool_relayer.Calldata.DefaultRoundTrip.{transact_round_trip}
use zeropool_relayer.Helpers.Hex.{flatten_proof}
use zeropool_relayer.Helpers.TxTypes.{truncate_memo_tx_prefix}
use zeropool_relayer.Numerals.{Numerals}
use zeropool_relayer.Pool.Default.Sending.{on_confirmed}
use zeropool_relayer.Pool.Types.{
  get_tx_proof_field, field_of, nullifier, out_commit, delta, Proof, PoolTx, Delta, ProcessResult,
}
use zeropool_relayer.State.Services.{Storage, RedisSet}
use zeropool_relayer.State.PoolState.{PoolState, update_state}
use zeropool_relayer.Sync.{
  BasePool, Chain, both_states, find_tx, found_tx, add_tx_to_state, save_nullifier, update_states,
}

-- The digits of the selector of transact.
abbrev transact_digits : Text
transact_digits = codes "af989083"

module _ (num : Numerals) (st : Storage) (r : RedisSet) (chain : Chain) (parse_delta : Text → Delta)
    (function_signature : String → Text) (get_tree_proof : Text → Outcome (Proof × ℕ)) where
  -- A transaction of the users whose proof was made for five inputs, of which n, o and d are read, and
  -- what the tree prover gave for it.
  pub record Built (tx : PoolTx) (n o d : Text) (tree : Proof) (root_after : Text) (i : ℕ)
      : Type 0 where
    pub first : Text
    pub last : Text
    pub inputs : tx.proof.inputs ≡ first ∷ n ∷ o ∷ d ∷ last ∷ []
    pub proved : get_tree_proof o ≡ ok (tree, i)
    pub root : get_elem? tree.inputs 1 ≡ some root_after
    pub fits : Encodable num n o (parse_delta d) tx.proof.proof tx.memo
    pub root_fits : num.of_dec root_after < 16 ^ 64
    pub tree_fits : All (λ x. num.of_dec x < 16 ^ 64) (flatten_proof tree.proof)
    pub nullifier_digits : num.to_dec (num.of_dec n) ≡ n
    pub commit_digits : num.to_dec (num.of_dec o) ≡ o
    pub selector : function_signature "transact()" ≡ codes "0xaf989083"

  ok-injective : {p q : ProcessResult} → ok p ≡ ok q → p ≡ q
  ok-injective e = cc

  result_of :
      (tx : PoolTx) (n o d : Text) (tree : Proof) (root_after : Text) (i : ℕ)
      → Built tx n o d tree root_after i
      → build_normal_tx num parse_delta function_signature get_tree_proof tx
        ≡ ok (record {
          calldata =
              codes "0x"
              ++ join (
                  transact_pieces num transact_digits n o
                    (parse_delta d)
                    tx.proof.proof
                    root_after
                    tree.proof
                    tx.tx_type
                    tx.memo
                    tx.deposit_signature);
          func = "transact()";
          nullifier = some n;
          out_commit = o;
          memo = truncate_memo_tx_prefix tx.memo tx.tx_type;
          commit_index = i;
        })
  unfolding build_normal_tx get_tx_proof_field field_of transact_pieces join
  result_of tx n o d tree root_after i b =
      >>=-of-ok (get_tx_proof_field tx.proof nullifier) _ n
        (ap (λ l. field_of l nullifier) b.inputs)
        (>>=-of-ok (get_tx_proof_field tx.proof out_commit) _ o
          (ap (λ l. field_of l out_commit) b.inputs)
          (>>=-of-ok (get_tx_proof_field tx.proof delta) _ d (ap (λ l. field_of l delta) b.inputs)
            (>>=-of-ok (get_tree_proof o) _ (tree, i) b.proved (rw (b.root, b.selector) refl))))

  found_of :
      (tx : PoolTx) (n o d : Text) (tree : Proof) (root_after : Text) (i : ℕ) (message : Text)
      → Built tx n o d tree root_after i
      → ReadsHex num chain.hex_to_number
      → find_tx num chain message (
          codes "0x"
          ++ join (
              transact_pieces num transact_digits n o
                (parse_delta d)
                tx.proof.proof
                root_after
                tree.proof
                tx.tx_type
                tx.memo
                tx.deposit_signature))
        ≡ ok (record {
          out_commit = o;
          memo = truncate_memo_tx_prefix tx.memo tx.tx_type;
          nullifier = some n;
        })
  unfolding find_tx starts_with transact_pieces join fields
  found_of tx n o d tree root_after i message b reads =
      let read =
        transact_round_trip num n o (parse_delta d) tx.proof.proof root_after tree.proof tx.tx_type
          tx.memo tx.deposit_signature transact_digits b.fits b.root_fits b.tree_fits refl
          chain.hex_to_number truncate_memo_tx_prefix reads in
      ap found_tx read ∙ rw (b.nullifier_digits, b.commit_digits) refl

  -- A pool that finds a confirmed transaction in the contract's events comes to the confirmed state of
  -- the pool that built the transaction and confirmed it itself: for a transaction of five proof inputs
  -- whose numbers fit their places and whose nullifier and commitment are in plain decimal digits, with
  -- the calldata that the pool built for it, at the index of the contract after it.
  pub add_tx_to_state-on_confirmed :
      (tx : PoolTx) (c : ℕ) (m o d : Text) (tree : Proof) (root_after : Text) (i : ℕ)
      (p : ProcessResult) (tx_hash message : Text) (block : ℕ) (pool : BasePool st r)
      (other : PoolState st r)
      → Built tx (c ∷ m) o d tree root_after i
      → ReadsHex num chain.hex_to_number
      → build_normal_tx num parse_delta function_signature get_tree_proof tx ≡ ok p
      → chain.get_tx_calldata tx_hash ≡ ok p.calldata
      → (after : BasePool st r) × (add_tx_to_state num st r chain tx_hash
            (i * 128 + 128)
            message
            both_states
            block
            pool
          ≡ ok after)
        × (after.state ≡ (on_confirmed num st r pool.state other p tx_hash).0)
  unfolding add_tx_to_state on_confirmed save_nullifier update_states update_state
  add_tx_to_state-on_confirmed tx c m o d tree root_after i p tx_hash message block pool other b
        reads built answer =
      let e = ok-injective (sym built ∙ result_of tx (c ∷ m) o d tree root_after i b) in
      let found = found_of tx (c ∷ m) o d tree root_after i message b reads in
      let place : (i * 128 + 128 - 128) / 128 ≡ i = omega arith in
      (
        _,
        >>=-of-ok (chain.get_tx_calldata tx_hash) _ _ (answer ∙ ap (λ q. ok q.calldata) e)
            (>>=-of-ok _ _ _ found refl),
        rw (e, place) refl,
      )
