-- ===== src/State/Paging.antt =====
-- `getTransactions` returns a gap-free run of the storage.
use zeropool_relayer.Base.{
  ℕ, zero, suc, ◌+◌, ◌*◌, ◌/◌, ◌≤◌, ◌<◌, ◌≡◌, refl, length, get_elem?, arith, Option-cases, inl,
  inr,
}
use zeropool_relayer.State.Services.{Storage, RedisSet}
use zeropool_relayer.State.PoolState.{PoolState, get_db_tx, collect, get_transactions}

module _ (st : Storage) (r : RedisSet) (s : PoolState st r) where
  pub length-collect : (offset limit last : ℕ) → length (collect st r s offset limit last).0 ≤ limit
  unfolding collect
  length-collect offset zero last = omega arith
  length-collect offset (suc limit) last = elim (Option-cases (get_db_tx st r s offset)) [
    | inl gap ↦ rw (gap, collect) (omega arith)
    | inr (tx, found) ↦
        rw (found, collect) (omega (arith, length-collect (offset + 128) limit offset))
  ]

  pub collect_stored :
      (offset limit last i : ℕ)
      → i < length (collect st r s offset limit last).0
      → get_elem? (collect st r s offset limit last).0 i ≡ get_db_tx st r s (offset + i * 128)
  unfolding collect
  collect_stored offset zero last i h = elim h [ ]
  collect_stored offset (suc limit) last zero h =
      let here : offset + 0 * 128 ≡ offset = omega arith in
      elim (Option-cases (get_db_tx st r s offset)) [
        | inl gap ↦ absurd (omega (arith, rw (gap, collect) at h))
        | inr (tx, found) ↦ rw (here, found, collect) refl
      ]
  collect_stored offset (suc limit) last (suc i) h =
      let there : offset + suc i * 128 ≡ offset + 128 + i * 128 = omega arith in
      elim (Option-cases (get_db_tx st r s offset)) [
        | inl gap ↦ absurd (omega (arith, rw (gap, collect) at h))
        | inr (tx, found) ↦
            let h' = rw (found, collect) at h in
            rw (there, found, collect)
              (collect_stored (offset + 128) limit offset i (omega (arith, h')))
      ]

  -- A page holds at most `limit` transactions: those stored at the indices from the rounded offset on,
  -- in steps of 128, with none left out.
  pub get_transactions_lem :
      (limit offset i : ℕ)
      → i < length (get_transactions st r s limit offset).0
      → (length (get_transactions st r s limit offset).0 ≤ limit)
        × (get_elem? (get_transactions st r s limit offset).0 i
            ≡ get_db_tx st r s (offset / 128 * 128 + i * 128))
  unfolding get_transactions
  get_transactions_lem limit offset i h =
      let start = offset / 128 * 128 in
      (length-collect start limit start, collect_stored start limit start i h)
