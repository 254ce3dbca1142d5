-- ===== src/Sync/Propagate.antt =====
-- What `propagateOptimisticState` copies.
use mathlib.Core.Path.{subst}
use zeropool_relayer.Base.{
  ℕ, zero, suc, ◌+◌, ◌-◌, ◌*◌, ◌/◌, ◌≤◌, ◌<◌, ◌≡◌, refl, sym, ◌∙◌, Bool, true, false, ◌&&◌, Text,
  ◌∷◌, some, ok, ltb, leb, ◌==◌, if◌then◌else◌, max, arith, Bool-cases, inl, inr,
}
use zeropool_relayer.Numerals.{Numerals}
use zeropool_relayer.State.Services.{Storage, RedisSet}
use zeropool_relayer.State.PoolState.{
  PoolState, update_state, get_db_tx, get_next_index, add_tx, add_commitment,
}
use zeropool_relayer.Sync.{
  BasePool, copy_txs, stored_commit, propagate_to, propagate_optimistic_state,
  set_last_confirmed_tx_block,
}

module _ (num : Numerals) (st : Storage) (r : RedisSet) (hex_to_number : Text → ℕ) where
  get-update_state :
      (s : PoolState st r) (i : ℕ) (commit tx : Text) (j : ℕ)
      → get_db_tx st r (update_state st r s i commit tx) j
        ≡ (if i * 128 == j then some tx else get_db_tx st r s j)
  unfolding get_db_tx update_state add_tx add_commitment
  get-update_state s i commit tx j = st.get-add s.txs (i * 128) j tx

  next-update_state :
      (s : PoolState st r) (i : ℕ) (commit tx : Text)
      → get_next_index st r (update_state st r s i commit tx)
        ≡ max (get_next_index st r s) (i * 128 + 128)
  unfolding get_next_index update_state add_tx add_commitment
  next-update_state s i commit tx = st.add_commitment_next s.tree i commit

  -- One of the indices i * 128, … of `count` transactions from i on.
  abbrev pub copied : ℕ → ℕ → ℕ → Bool
  copied count i j = leb (i * 128) j && (ltb j ((i + count) * 128) && j / 128 * 128 == j)

  -- A transaction of the optimistic state that a copy accepts.
  abbrev pub IsStored : PoolState st r → ℕ → Type 0
  IsStored optimistic i =
      (c : ℕ) × (t : Text) × (get_db_tx st r optimistic (i * 128) ≡ some (c ∷ t))

  copied_step :
      (count i j : ℕ)
      → copied (suc count) i j ≡ (if i * 128 == j then true else copied count (suc i) j)
  copied_step count i j = ground arith

  -- Where all transactions are there, the loop copies them.
  copy_txs_total :
      (optimistic : PoolState st r) (count i : ℕ) (s : PoolState st r)
      → ((k : ℕ) → i ≤ k → k < i + count → IsStored optimistic k)
      → (copy_txs num st r hex_to_number optimistic count i s).1 ≡ ok tt
  unfolding copy_txs
  copy_txs_total optimistic zero i s all = refl
  copy_txs_total optimistic (suc count) i s all =
      let (c, t, e) = all i (omega arith) (omega arith) in
      rw (e, copy_txs)
        (copy_txs_total optimistic count (suc i) _
          (λ k low high. all k (omega arith) (omega arith)))

  if_same : {A : Type 0} (b : Bool) (x : A) → (if b then x else x) ≡ x
  if_same true x = refl
  if_same false x = refl

  get-copy_txs :
      (optimistic : PoolState st r) (count i : ℕ) (s : PoolState st r) (j : ℕ)
      → ((k : ℕ) → i ≤ k → k < i + count → IsStored optimistic k)
      → get_db_tx st r (copy_txs num st r hex_to_number optimistic count i s).0 j
        ≡ (if copied count i j then get_db_tx st r optimistic j else get_db_tx st r s j)
  unfolding copy_txs
  get-copy_txs optimistic zero i s j all =
      let none_copied : copied 0 i j ≡ false = ground arith in rw none_copied refl
  get-copy_txs optimistic (suc count) i s j all =
      let (c, t, e) = all i (omega arith) (omega arith) in
      let rest =
        get-copy_txs optimistic count (suc i)
          (update_state st r s i (stored_commit num hex_to_number (c ∷ t)) (c ∷ t)) j
          (λ k low high. all k (omega arith) (omega arith)) in
      elim (Bool-cases (i * 128 == j)) [
        | inl f ↦
            let same : i * 128 ≡ j = ground arith in
            let set = get-update_state s i (stored_commit num hex_to_number (c ∷ t)) (c ∷ t) j in
            let held : get_db_tx st r optimistic j ≡ some (c ∷ t) = rw (← same) e in
            rw (e, copy_txs, rest, set, f, held, copied_step count i j, f) (if_same _ _)
        | inr f ↦
            let set = get-update_state s i (stored_commit num hex_to_number (c ∷ t)) (c ∷ t) j in
            rw (e, copy_txs, rest, set, f, copied_step count i j, f) refl
      ]

  next-copy_txs :
      (optimistic : PoolState st r) (count i : ℕ) (s : PoolState st r)
      → ((k : ℕ) → i ≤ k → k < i + suc count → IsStored optimistic k)
      → get_next_index st r s ≤ i * 128 + 128
      → get_next_index st r (copy_txs num st r hex_to_number optimistic (suc count) i s).0
        ≡ (i + suc count) * 128
  unfolding copy_txs
  next-copy_txs optimistic zero i s all low =
      let (c, t, e) = all i (omega arith) (omega arith) in
      rw (e, copy_txs, next-update_state s i (stored_commit num hex_to_number (c ∷ t)) (c ∷ t))
        (omega arith)
  next-copy_txs optimistic (suc count) i s all low =
      let (c, t, e) = all i (omega arith) (omega arith) in
      let next = next-update_state s i (stored_commit num hex_to_number (c ∷ t)) (c ∷ t) in
      rw (e, copy_txs)
        (next-copy_txs optimistic count (suc i) _ (λ k lo hi. all k (omega arith) (omega arith))
            (rw next (omega arith))
          ∙ omega arith)

  abbrev pub state_index : BasePool st r → ℕ
  state_index p = get_next_index st r p.state / 128

  -- What the pool is after a propagation up to `index` that found all transactions.
  pub record Propagated (p : BasePool st r) (index block : ℕ) (q : BasePool st r) : Type 0 where
    pub txs :
        (j : ℕ)
        → get_db_tx st r q.state j ≡ (
            if copied (index - state_index p) (state_index p) j
            then get_db_tx st r p.optimistic j
            else get_db_tx st r p.state j)
    pub next : state_index p < index → get_next_index st r q.state ≡ index * 128
    pub kept : index ≤ state_index p → q.state ≡ p.state
    pub optimistic : q.optimistic ≡ p.optimistic
    pub last_block : q.last_confirmed_tx_block ≡ max p.last_confirmed_tx_block block

  block_max : (a b : ℕ) → set_last_confirmed_tx_block a b ≡ max b a
  unfolding set_last_confirmed_tx_block
  block_max a b = ground arith

  nothing_copied :
      (optimistic : PoolState st r) (count i : ℕ) (s : PoolState st r)
      → count ≡ 0
      → (copy_txs num st r hex_to_number optimistic count i s).0 ≡ s
  unfolding copy_txs
  nothing_copied optimistic count i s e = rw (e, copy_txs) refl

  next_after :
      (p : BasePool st r) (index : ℕ)
      → ((k : ℕ) → state_index p ≤ k → k < index → IsStored p.optimistic k)
      → state_index p < index
      → get_next_index st r
          (copy_txs num st r hex_to_number p.optimistic
            (index - state_index p)
            (state_index p)
            p.state).0
        ≡ index * 128
  next_after p index all more =
      let n = index - state_index p - 1 in
      let count : index - state_index p ≡ suc n = omega arith in
      rw count (
        next-copy_txs p.optimistic n (state_index p) p.state (λ k lo hi. all k lo (omega arith))
          (omega arith)
        ∙ omega arith)

  propagate_to_lem :
      (p : BasePool st r) (index block : ℕ)
      → index ≤ get_next_index st r p.optimistic / 128
      → ((k : ℕ) → state_index p ≤ k → k < index → IsStored p.optimistic k)
      → let result = propagate_to num st r hex_to_number index block p in
        (result.1 ≡ ok tt) × Propagated p index block result.0
  unfolding propagate_to
  propagate_to_lem p index block reached all =
      let inside : ltb (get_next_index st r p.optimistic / 128) index ≡ false = ground arith in
      let count = index - state_index p in
      let found : (k : ℕ)
          → state_index p ≤ k
          → k < state_index p + count
          → IsStored p.optimistic k =
        λ k lo hi. all k lo (omega arith) in
      let done = copy_txs_total p.optimistic count (state_index p) p.state found in
      rw (inside, done, propagate_to)
        (
          refl,
          record {
            txs = λ j. get-copy_txs p.optimistic count (state_index p) p.state j found;
            next = λ more. next_after p index all more;
            kept = λ less. nothing_copied p.optimistic count (state_index p) p.state (omega arith);
            optimistic = refl;
            last_block = block_max block p.last_confirmed_tx_block;
          },
        )

  -- The propagation up to an index of the contract that the optimistic state has reached returns, where
  -- the optimistic state holds every transaction from the confirmed index to it: the confirmed state
  -- then holds these transactions and otherwise what it held, and its next index is that index if it
  -- was below; if it was not, the confirmed state stays. The optimistic state stays, and the last
  -- confirmed block never falls.
  pub propagate_optimistic_state_lem :
      (p : BasePool st r) (index block : ℕ)
      → index ≤ get_next_index st r p.optimistic / 128
      → ((k : ℕ) → state_index p ≤ k → k < index → IsStored p.optimistic k)
      → let result = propagate_optimistic_state num st r hex_to_number (index * 128) block p in
        (result.1 ≡ ok tt) × Propagated p index block result.0
  unfolding propagate_optimistic_state
  propagate_optimistic_state_lem p index block reached all =
      let whole : index * 128 / 128 ≡ index = omega arith in
      subst
        (λ i.
          ((propagate_to num st r hex_to_number i block p).1 ≡ ok tt)
          × Propagated p index block (propagate_to num st r hex_to_number i block p).0)
        (sym whole) (propagate_to_lem p index block reached all)
