-- ===== src/Sync/Ahead.antt =====
-- The steps that change the two states of a pool, and that the optimistic state is never behind the
-- confirmed one.
use zeropool_relayer.Base.{
  ℕ, zero, suc, ◌+◌, ◌-◌, ◌*◌, ◌/◌, ◌≤◌, ◌≡◌, refl, Text, List, [], ◌∷◌, ◌++◌, codes, Option, none,
  some, ok, ltb, max, arith, Bool-cases, Option-cases, List-cases, Outcome-cases, inl, inr,
  >>=-eq-ok,
}
use zeropool_relayer.Helpers.Hex.{build_prefixed_memo}
use zeropool_relayer.Numerals.{Numerals}
use zeropool_relayer.Pool.Default.Sending.{on_send, on_confirmed, on_failed}
use zeropool_relayer.Pool.Types.{ProcessResult}
use zeropool_relayer.State.Services.{Storage, RedisSet}
use zeropool_relayer.State.PoolState.{
  PoolState, update_state, add_commitment, add_tx, get_next_index, get_db_tx, wipe,
}
use zeropool_relayer.State.Rollback.{clear_optimistic_state_lem}
use zeropool_relayer.Sync.{
  BasePool, Chain, Target, optimistic_only, both_states, update_states, save_nullifier,
  add_tx_to_state, find_tx, copy_txs, stored_commit, propagate_to, propagate_optimistic_state,
}
use zeropool_relayer.Sync.Rounds.{Sources, IndexerTx, add_page, wipe_all}

module _ (num : Numerals) (st : Storage) (r : RedisSet) (chain : Chain) (sources : Sources) where
  -- What changes the states: a transaction is sent; one that the optimistic state holds is confirmed;
  -- one fails; a page of the indexer and a transaction of the contract are added; both are wiped.
  pub data Step (p : BasePool st r) : BasePool st r → Type 0 where
    sent :
        (result : ProcessResult) (tx_hash : Text)
        → Step p (record p { optimistic = on_send num st r p.optimistic result tx_hash })
    confirmed :
        (result : ProcessResult) (tx_hash : Text)
        → result.commit_index * 128 + 128 ≤ get_next_index st r p.optimistic
        → Step p (record p {
          state = (on_confirmed num st r p.state p.optimistic result tx_hash).0;
          optimistic = (on_confirmed num st r p.state p.optimistic result tx_hash).1;
        })
    failed : Step p (record p { optimistic = on_failed num st r p.optimistic p.state })
    page : (txs : List IndexerTx) (i : ℕ) → Step p (add_page num st r chain sources txs i p)
    event :
        (tx_hash message : Text) (index block : ℕ) (target : Target) (q : BasePool st r)
        → add_tx_to_state num st r chain tx_hash index message target block p ≡ ok q
        → Step p q
    propagated :
        (hex_to_number : Text → ℕ) (index block : ℕ)
        → Step p (propagate_optimistic_state num st r hex_to_number index block p).0
    wiped : Step p (wipe_all num st r chain sources p)

  pub data Reach (p : BasePool st r) : BasePool st r → Type 0 where
    start : Reach p p
    next : {q s : BasePool st r} → Reach p q → Step q s → Reach p s

  abbrev pub IsAhead : BasePool st r → Type 0
  IsAhead p = get_next_index st r p.state ≤ get_next_index st r p.optimistic

  next-add_commitment :
      (s : PoolState st r) (i : ℕ) (commit : Text)
      → get_next_index st r (add_commitment st r s i commit)
        ≡ max (get_next_index st r s) (i * 128 + 128)
  unfolding get_next_index add_commitment
  next-add_commitment s i commit = st.add_commitment_next s.tree i commit

  ok-injective : {x y : BasePool st r} → ok x ≡ ok y → x ≡ y
  ok-injective e = cc

  next-update_state :
      (s : PoolState st r) (i : ℕ) (commit tx : Text)
      → get_next_index st r (update_state st r s i commit tx)
        ≡ max (get_next_index st r s) (i * 128 + 128)
  unfolding get_next_index update_state add_tx add_commitment
  next-update_state s i commit tx = st.add_commitment_next s.tree i commit

  add_page-IsAhead :
      (txs : List IndexerTx) (i : ℕ) (p : BasePool st r)
      → IsAhead p
      → IsAhead (add_page num st r chain sources txs i p)
  unfolding add_page
  add_page-IsAhead [] i p h = h
  add_page-IsAhead (tx ∷ txs) i p h =
      let commit = num.to_dec (chain.hex_to_number (codes "0x" ++ tx.commitment)) in
      let o = next-add_commitment p.optimistic i commit in
      let s = next-add_commitment p.state i commit in
      elim (Bool-cases tx.is_mined) [
        | inl e ↦ rw e (add_page-IsAhead txs (suc i) _ (omega (arith, o, s, h)))
        | inr e ↦ rw e (add_page-IsAhead txs (suc i) _ (omega (arith, o, s, h)))
      ]

  update_states-IsAhead :
      (target : Target) (i : ℕ) (commit memo : Text) (block : ℕ) (n : Option Text)
      (p : BasePool st r)
      → IsAhead p
      → IsAhead
          (update_states num st r target i commit memo (save_nullifier num st r target block n p))
  unfolding update_states save_nullifier get_next_index
  update_states-IsAhead optimistic_only i commit memo block n p h =
      omega (arith, h, next-update_state p.optimistic i commit memo)
  update_states-IsAhead both_states i commit memo block none p h = omega (
    arith,
    h,
    next-update_state p.optimistic i commit memo,
    next-update_state p.state i commit memo,
  )
  update_states-IsAhead both_states i commit memo block (some n) p h =
      omega
        (arith, h, next-update_state p.optimistic i commit memo, next-update_state _ i commit memo)

  next-on_send :
      (o : PoolState st r) (result : ProcessResult) (tx_hash : Text)
      → get_next_index st r (on_send num st r o result tx_hash)
        ≡ max (get_next_index st r o) (result.commit_index * 128 + 128)
  unfolding on_send get_next_index
  next-on_send o result tx_hash =
      next-update_state o result.commit_index result.out_commit
        (build_prefixed_memo num result.out_commit tx_hash result.memo)

  next-on_confirmed :
      (s o : PoolState st r) (result : ProcessResult) (tx_hash : Text)
      → (get_next_index st r (on_confirmed num st r s o result tx_hash).0
          ≡ max (get_next_index st r s) (result.commit_index * 128 + 128))
        × (get_next_index st r (on_confirmed num st r s o result tx_hash).1 ≡ get_next_index st r o)
  unfolding on_confirmed get_next_index add_tx
  next-on_confirmed s o result tx_hash = (
    next-update_state s result.commit_index result.out_commit
        (build_prefixed_memo num result.out_commit tx_hash result.memo),
    refl,
  )

  next-copy_txs_le :
      (hex_to_number : Text → ℕ) (o : PoolState st r) (count i : ℕ) (s : PoolState st r)
      → get_next_index st r (copy_txs num st r hex_to_number o count i s).0
        ≤ max (get_next_index st r s) ((i + count) * 128)
  unfolding copy_txs
  next-copy_txs_le hex_to_number o zero i s = omega arith
  next-copy_txs_le hex_to_number o (suc count) i s =
      elim (Option-cases (get_db_tx st r o (i * 128))) [
        | inl e ↦ rw (e, copy_txs) (omega arith)
        | inr (tx, e) ↦ elim (List-cases tx) [
          | inl f ↦ rw (e, f, copy_txs) (omega arith)
          | inr (c, t, f) ↦
              let commit = stored_commit num hex_to_number (c ∷ t) in
              rw (e, f, copy_txs)
                (omega (
                  arith,
                  next-copy_txs_le hex_to_number o count (suc i)
                      (update_state st r s i commit (c ∷ t)),
                  next-update_state s i commit (c ∷ t),
                ))
        ]
      ]

  propagate_to-IsAhead :
      (hex_to_number : Text → ℕ) (index block : ℕ) (p : BasePool st r)
      → IsAhead p
      → IsAhead (propagate_to num st r hex_to_number index block p).0
  unfolding propagate_to
  propagate_to-IsAhead hex_to_number index block p h =
      let si = get_next_index st r p.state / 128 in
      let result = copy_txs num st r hex_to_number p.optimistic (index - si) si p.state in
      let bound = next-copy_txs_le hex_to_number p.optimistic (index - si) si p.state in
      elim (Bool-cases (ltb (get_next_index st r p.optimistic / 128) index)) [
        | inl e ↦ rw (e, propagate_to) h
        | inr e ↦
            let reached : index ≤ get_next_index st r p.optimistic / 128 = ground arith in
            let within : get_next_index st r result.0 ≤ get_next_index st r p.optimistic =
              omega (arith, bound, reached, h) in
            elim (Outcome-cases result.1) [
              | inl (u, f) ↦ rw (e, f, propagate_to) within
              | inr (x, f) ↦ rw (e, f, propagate_to) within
            ]
      ]

  add_tx_to_state-IsAhead :
      (tx_hash message : Text) (index block : ℕ) (target : Target) (p q : BasePool st r)
      → add_tx_to_state num st r chain tx_hash index message target block p ≡ ok q
      → IsAhead p
      → IsAhead q
  unfolding add_tx_to_state
  add_tx_to_state-IsAhead tx_hash message index block target p q e h =
      let (input, at_input, e1) = >>=-eq-ok (chain.get_tx_calldata tx_hash) _ e in
      let (found, at_found, e2) = >>=-eq-ok (find_tx num chain message input) _ e1 in
      rw (← ok-injective e2) (
        update_states-IsAhead target ((index - 128) / 128) found.out_commit
          (build_prefixed_memo num found.out_commit tx_hash found.memo) block found.nullifier p h)

  wipe_all-IsAhead : (p : BasePool st r) → IsAhead (wipe_all num st r chain sources p)
  unfolding wipe_all wipe get_next_index
  wipe_all-IsAhead p = omega (arith, st.wipe_next p.state.tree, st.wipe_next p.optimistic.tree)

  Step-IsAhead : {p q : BasePool st r} → Step p q → IsAhead p → IsAhead q
  Step-IsAhead {p} (sent result tx_hash) h =
      omega (arith, h, next-on_send p.optimistic result tx_hash)
  Step-IsAhead {p} (confirmed result tx_hash low) h =
      let (s, o) = next-on_confirmed p.state p.optimistic result tx_hash in
      omega (arith, h, low, s, o)
  Step-IsAhead {p} failed h =
      let (level, cleared) = clear_optimistic_state_lem st r p.optimistic p.state [] h in
      unfold on_failed in omega (arith, level)
  Step-IsAhead (page txs i) h = add_page-IsAhead txs i _ h
  Step-IsAhead (event tx_hash message index block target q e) h =
      add_tx_to_state-IsAhead tx_hash message index block target _ q e h
  Step-IsAhead (propagated hex_to_number index block) h =
      unfold propagate_optimistic_state in
      propagate_to-IsAhead hex_to_number (index / 128) block _ h
  Step-IsAhead wiped h = wipe_all-IsAhead _

  -- The optimistic state is never behind the confirmed one, in every state that a pool reaches from one
  -- where it is not behind: by sending, confirming, a failure, a page of the indexer, a transaction of
  -- the contract, a propagation, or wiping, where a confirmed transaction is one that the optimistic
  -- state still holds.
  pub Reach-IsAhead : {p q : BasePool st r} → IsAhead p → Reach p q → IsAhead q
  Reach-IsAhead h start = h
  Reach-IsAhead h (next path step) = Step-IsAhead step (Reach-IsAhead h path)
