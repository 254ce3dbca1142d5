-- ===== src/Watching/Blocks.antt =====
-- Which blocks a watcher has processed.
use zeropool_relayer.Base.{
  ℕ, zero, suc, ◌+◌, ◌-◌, ◌≤◌, ◌<◌, ◌≡◌, refl, min, List, [], ◌∷◌, Outcome, leb, arith, Bool-cases,
  Outcome-cases, inl, inr,
}
use zeropool_relayer.Watching.{
  Range, ranges_from, event_ranges, WatcherConfig, Watcher, process_ranges, watch,
}

-- The batches follow each other without a gap or an overlap, from a first block up to a last one; no
-- batch is empty or has more than `size` + 1 blocks.
abbrev pub Covers : ℕ → ℕ → ℕ → List Range → Type 0
Covers size first last [] = last < first
Covers size first last (b ∷ bs) =
    (b.from_block ≡ first)
    × (b.from_block ≤ b.to_block)
    × (b.to_block ≤ b.from_block + size)
    × (b.to_block ≤ last)
    × Covers size (suc b.to_block) last bs

ranges_from-Covers :
    (fuel size last first to : ℕ)
    → 0 < size
    → last < first + fuel
    → to ≤ first
    → first ≤ suc to
    → Covers size first last (ranges_from fuel size last first to)
unfolding ranges_from
ranges_from-Covers zero size last first to s h lo hi = omega arith
ranges_from-Covers (suc fuel) size last first to s h lo hi = elim (Bool-cases (leb first last)) [
  | inr e ↦ rw e (ground arith)
  | inl e ↦
      let inside : first ≤ last = ground arith in
      rw e (
        refl,
        omega arith,
        omega arith,
        omega arith,
        ranges_from-Covers fuel size last (suc (min (to + size) last)) (min (to + size) last) s
            (omega arith) (omega arith) (omega arith),
      )
]

event_ranges-Covers :
    (size first last : ℕ) → 0 < size → Covers size first last (event_ranges size first last)
unfolding event_ranges
event_ranges-Covers size first last s =
    ranges_from-Covers (suc last - first) size last first first s (omega arith) (omega arith)
      (omega arith)

-- The completed batches, the latest in front, cover the blocks after `start` up to `last`, each one
-- once.
abbrev pub Chained : ℕ → List Range → ℕ → Type 0
Chained start [] last = start ≡ last
Chained start (b ∷ bs) last =
    (b.to_block ≡ last)
    × (0 < b.from_block)
    × (b.from_block ≤ b.to_block)
    × Chained start bs (b.from_block - 1)

module _ {S : Type 0} (process : Range → S → S × Outcome (Unit {0})) where
  process_ranges-Chained :
      (start size last : ℕ) (bs : List Range) (w : Watcher S)
      → Covers size (suc w.last_processed_block) last bs
      → Chained start w.completed w.last_processed_block
      → let after = process_ranges process bs w in
        Chained start after.completed after.last_processed_block
        × (w.last_processed_block ≤ after.last_processed_block)
  unfolding process_ranges
  process_ranges-Chained start size last [] w c h = (h, omega arith)
  process_ranges-Chained start size last (b ∷ bs) w (first, some_block, fits, inside, c) h =
      elim (Outcome-cases (process b w.store).1) [
        | inr (x, e) ↦ rw (e, process_ranges) (h, omega arith)
        | inl (u, e) ↦
            let before : b.from_block - 1 ≡ w.last_processed_block = omega arith in
            let (chained, later) =
              process_ranges-Chained start size last bs
                (record {
                  last_processed_block = b.to_block;
                  completed = b ∷ w.completed;
                  store = (process b w.store).0;
                })
                c (refl, omega arith, some_block, rw before h) in
            rw (e, process_ranges) (chained, omega arith)
      ]

  -- A round keeps that the completed batches cover the blocks after the first one up to the last
  -- processed block, each one once and in order, whatever batch fails; and the last processed block
  -- never falls. The size of a batch is not 0.
  pub watch-Chained :
      (config : WatcherConfig) (start last_block_number : ℕ) (w : Watcher S)
      → 0 < config.batch_size
      → Chained start w.completed w.last_processed_block
      → let after = watch process config last_block_number w in
        Chained start after.completed after.last_processed_block
        × (w.last_processed_block ≤ after.last_processed_block)
  unfolding watch
  watch-Chained config start last_block_number w s h =
      process_ranges-Chained start config.batch_size _ _ w
        (event_ranges-Covers config.batch_size (suc w.last_processed_block) _ s) h

  -- What the processor keeps, a round keeps.
  process_ranges_keeps :
      (P : S → Type 0)
      → ((b : Range) (x : S) → P x → P (process b x).0)
      → (bs : List Range) (w : Watcher S) → P w.store
      → P (process_ranges process bs w).store
  unfolding process_ranges
  process_ranges_keeps P keeps [] w h = h
  process_ranges_keeps P keeps (b ∷ bs) w h = elim (Outcome-cases (process b w.store).1) [
    | inl (u, e) ↦ rw (e, process_ranges) (process_ranges_keeps P keeps bs _ (keeps b w.store h))
    | inr (x, e) ↦ rw (e, process_ranges) (keeps b w.store h)
  ]

  pub watch_keeps :
      (P : S → Type 0)
      → ((b : Range) (x : S) → P x → P (process b x).0)
      → (config : WatcherConfig) (last_block_number : ℕ) (w : Watcher S) → P w.store
      → P (watch process config last_block_number w).store
  unfolding watch
  watch_keeps P keeps config last_block_number w h = process_ranges_keeps P keeps _ w h
