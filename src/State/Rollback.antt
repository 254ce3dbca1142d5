-- ===== src/State/Rollback.antt =====
-- What `rollbackTo`, `wipe` and `clearOptimisticState` leave in the storage and in the tree.
use zeropool_relayer.Base.{
  ℕ, zero, suc, ◌+◌, ◌-◌, ◌*◌, ◌%◌, ◌≤◌, ◌<◌, ◌≡◌, ◌∙◌, Bool, true, false, ◌&&◌, Text, none, ltb,
  lt→ltb, leb, ◌==◌, if◌then◌else◌, arith, Bool-cases, inl, inr,
}
use zeropool_relayer.State.Services.{Storage, RedisSet}
use zeropool_relayer.State.Nullifiers
use zeropool_relayer.State.PoolState.{
  PoolState, get_next_index, get_db_tx, delete_range, rollback_to, wipe, clear_optimistic_state,
}

-- j is one of from, from + 128, … below to.
abbrev pub in_range : ℕ → ℕ → ℕ → Bool
in_range from to j = leb from j && (ltb j to && (j - from) % 128 == 0)

in_range_step :
    (i to j : ℕ) → i < to → in_range i to j ≡ (if i == j then true else in_range (i + 128) to j)
in_range_step i to j h = ground arith

in_range_end : (i to j : ℕ) → to ≤ i → in_range i to j ≡ false
in_range_end i to j h = ground arith

module _ (st : Storage) (r : RedisSet) where
  -- With fuel for each index of the range, the loop deletes exactly the entries of the range.
  get-delete_range :
      (fuel i to : ℕ) (txs : st.Txs) (j : ℕ)
      → to ≤ i + fuel
      → st.get (delete_range st r fuel i to txs) j
        ≡ (if in_range i to j then none else st.get txs j)
  unfolding delete_range
  get-delete_range zero i to txs j h = rw (in_range_end i to j (omega arith))
  get-delete_range (suc fuel) i to txs j h = elim (Bool-cases (ltb i to)) [
    | inl more ↦
        rw
          (
            more,
            get-delete_range fuel (i + 128) to (st.delete txs i) j (omega arith),
            st.get-delete txs i j,
            in_range_step i to j (ground arith),
          )
          (ground arith)
    | inr done ↦ rw (done, in_range_end i to j (ground arith))
  ]

  -- Rolling a state back to one that is behind it takes the tree back to the index of the other, drops
  -- the transactions at the indices in between, in steps of 128, and keeps all others.
  pub rollback_to_lem :
      (s other : PoolState st r) (j : ℕ)
      → get_next_index st r other < get_next_index st r s
      → (get_next_index st r (rollback_to st r s other) ≡ get_next_index st r other)
        × (get_db_tx st r (rollback_to st r s other) j ≡ (
            if in_range (get_next_index st r other) (get_next_index st r s) j
            then none
            else get_db_tx st r s j))
  unfolding rollback_to get_db_tx get_next_index
  rollback_to_lem s other j h =
      let e = lt→ltb (st.get_next_index other.tree) (st.get_next_index s.tree) h in
      rw e (
        st.rollback_next s.tree (st.get_next_index other.tree) (omega arith),
        get-delete_range (st.get_next_index s.tree) (st.get_next_index other.tree)
            (st.get_next_index s.tree) s.txs j (omega arith),
      )

  -- A wiped state starts at index 0, with no transaction at a multiple of 128 below its old index and
  -- no nullifier.
  pub record Wiped (s t : PoolState st r) : Type 0 where
    pub next : get_next_index st r t ≡ 0
    pub txs : (k : ℕ) → k * 128 < get_next_index st r s → get_db_tx st r t (k * 128) ≡ none
    pub nullifiers : (n : Text) → Nullifiers.is_in_set r t.nullifiers n ≡ false

  pub wipe-Wiped : (s : PoolState st r) → Wiped s (wipe st r s)
  unfolding wipe get_db_tx get_next_index Nullifiers.clear Nullifiers.is_in_set
  wipe-Wiped s =
      let n = st.get_next_index s.tree in
      record {
        next = st.wipe_next s.tree;
        txs = λ k h.
            let hit : in_range 0 n (k * 128) ≡ true = ground arith in
            get-delete_range n 0 n s.txs (k * 128) (omega arith) ∙ rw hit;
        nullifiers = λ x. r.sismember-del s.nullifiers x;
      }

  -- After a failed transaction the optimistic state stands at the confirmed one, if it was ahead of
  -- it, and holds no nullifier.
  pub clear_optimistic_state_lem :
      (optimistic confirmed : PoolState st r) (nullifier : Text)
      → get_next_index st r confirmed ≤ get_next_index st r optimistic
      → (get_next_index st r (clear_optimistic_state st r optimistic confirmed)
          ≡ get_next_index st r confirmed)
        × (Nullifiers.is_in_set r
              (clear_optimistic_state st r optimistic confirmed).nullifiers
              nullifier
            ≡ false)
  unfolding clear_optimistic_state get_next_index Nullifiers.is_in_set rollback_to
  clear_optimistic_state_lem optimistic confirmed nullifier h =
      elim (Bool-cases
        (ltb (st.get_next_index confirmed.tree) (st.get_next_index optimistic.tree))) [
          | inl behind ↦ rw behind (
            st.rollback_next optimistic.tree (st.get_next_index confirmed.tree) h,
            r.sismember-del optimistic.nullifiers nullifier,
          )
          | inr level ↦ rw level (ground arith, r.sismember-del optimistic.nullifiers nullifier)
        ]
