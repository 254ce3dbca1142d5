-- ===== src/Batch/Batches.antt =====
-- `processCache` ends, and what it leaves.
use native.Mathlib.Nat.{mod-eq_of_lt}
use zeropool_relayer.Base.{
  ap, ◌≢◌, ◌⊎◌, ℕ, zero, suc, ◌-◌, ◌%◌, ◌≤◌, ◌<◌, ◌≡◌, refl, inl, inr, Bool, true, false, not, ◌&&◌,
  List, [], ◌∷◌, ◌++◌, length, All, Option, none, some, ltb, leb, ◌==◌, arith, Bool-cases,
}
use zeropool_relayer.Batch.{SortedSet, fulfilled, take_entries, assemble, execute}
use zeropool_relayer.Batch.Assembly.{assemble_lem, zcard-take_entries}
use zeropool_relayer.Batch.Processing.{
  BatchCache, run_execute, execute_whole, set_timer, process_cache,
}

module _ {E : Type 0} (r : SortedSet E) (batch_size : ℕ) (validate : E → Bool) where
  zcard-assemble :
      (fuel : ℕ) (validated : List E) (s : r.Members) (batch : List E) (left : r.Members)
      → assemble r batch_size validate fuel validated s ≡ some (batch, left)
      → r.zcard left ≤ r.zcard s - (batch_size - length validated)
  unfolding assemble
  zcard-assemble zero validated s batch left e = absurd (none_ne_some e)
    where
      none_ne_some : {x : List E × r.Members} → none ≡ some x → ⊥
      none_ne_some e = cc
  zcard-assemble (suc fuel) validated s batch left e =
      let count = batch_size - length validated in
      let es = (take_entries r batch_size validate s count).0 in
      let s' = (take_entries r batch_size validate s count).1 in
      let popped = zcard-take_entries r batch_size validate s count in
      let validated' = validated ++ fulfilled validate es in
      elim (Bool-cases (ltb (length validated') batch_size && count == length es)) [
        | inl more ↦
            let rest = zcard-assemble fuel validated' s' batch left (rw (more, assemble) at e) in
            omega (arith, rest, popped)
        | inr done ↦
            let same = left_of (rw (done, assemble) at e) in rw (← same) (omega (arith, popped))
      ]
    where
      left_of :
          {a b : List E} {s t : r.Members}
          → ◌≡◌ {A = Option (List E × r.Members)} (some (a, s)) (some (b, t))
          → s ≡ t
      left_of e = cc

  -- A batch for the callback: not empty, within its size, and valid.
  abbrev pub IsBatch : List E → Type 0
  IsBatch b = (0 < length b) × (length b ≤ batch_size) × All (λ e. validate e ≡ true) b

  record Ran (c : BatchCache r batch_size validate) (o : Option (BatchCache r batch_size validate))
      : Type 0 where
    pub after : BatchCache r batch_size validate
    pub result : o ≡ some after
    pub fewer : r.zcard after.members ≤ r.zcard c.members - batch_size
    pub good : All IsBatch c.batches → All IsBatch after.batches
    pub cleared : after.timer ≡ false

  executed :
      (fuel : ℕ) (s : r.Members) (batch : List E) (left : r.Members)
      → assemble r batch_size validate fuel [] s ≡ some (batch, left)
      → execute r batch_size validate fuel s
        ≡ some (elim batch [ [] ↦ none | x ∷ xs ↦ some (x ∷ xs) ], left)
  unfolding execute
  executed fuel s [] left h = rw (h, execute) refl
  executed fuel s (x ∷ xs) left h = rw (h, execute) refl

  run_execute_lem :
      (c : BatchCache r batch_size validate)
      → 0 < batch_size
      → Ran c (run_execute r batch_size validate c)
  unfolding run_execute
  run_execute_lem c some_size =
      let a =
        assemble_lem r batch_size validate (suc (r.zcard c.members)) [] c.members some_size tt
          (omega arith) in
      ran_from c a.batch a.left a.result a.short a.valid
    where
      ran_from :
          (c : BatchCache r batch_size validate) (batch : List E) (left : r.Members)
          → assemble r batch_size validate (suc (r.zcard c.members)) [] c.members
            ≡ some (batch, left)
          → length batch ≤ batch_size
          → All (λ e. validate e ≡ true) batch
          → Ran c (run_execute r batch_size validate c)
      ran_from c [] left h short valid = record {
        after = record c { members = left; timer = false };
        result = rw (executed (suc (r.zcard c.members)) c.members [] left h, run_execute) refl;
        fewer = omega (arith, zcard-assemble (suc (r.zcard c.members)) [] c.members [] left h);
        good = λ h. h;
        cleared = refl;
      }
      ran_from c (x ∷ xs) left h short valid = record {
        after = record { members = left; timer = false; batches = (x ∷ xs) ∷ c.batches };
        result =
            rw (executed (suc (r.zcard c.members)) c.members (x ∷ xs) left h, run_execute) refl;
        fewer =
            omega (arith, zcard-assemble (suc (r.zcard c.members)) [] c.members (x ∷ xs) left h);
        good = λ h. ((omega arith, short, valid), h);
        cleared = refl;
      }

  -- What `processCache` leaves: less than a batch, for which the timer is set, and good batches.
  pub record Processed (c : BatchCache r batch_size validate)
      (o : Option (BatchCache r batch_size validate)) : Type 0 where
    pub after : BatchCache r batch_size validate
    pub result : o ≡ some after
    pub little : r.zcard after.members < batch_size
    pub good : All IsBatch c.batches → All IsBatch after.batches
    pub timed : 0 < r.zcard after.members → after.timer ≡ true

  record Whole (c : BatchCache r batch_size validate)
      (o : Option (BatchCache r batch_size validate)) : Type 0 where
    pub after : BatchCache r batch_size validate
    pub result : o ≡ some after
    pub little : r.zcard after.members < batch_size
    pub good : All IsBatch c.batches → All IsBatch after.batches

  execute_whole_lem :
      (fuel : ℕ) (c : BatchCache r batch_size validate)
      → 0 < batch_size
      → r.zcard c.members < fuel
      → Whole c (execute_whole r batch_size validate fuel c)
  unfolding execute_whole
  execute_whole_lem zero c some_size h = absurd (omega arith)
  execute_whole_lem (suc fuel) c some_size h =
      elim (Bool-cases (leb batch_size (r.zcard c.members))) [
        | inr e ↦ record {
          after = c;
          result = rw (e, execute_whole) refl;
          little = ground arith;
          good = λ g. g;
        }
        | inl e ↦
            let many : batch_size ≤ r.zcard c.members = ground arith in
            let run = run_execute_lem c some_size in
            let rest = execute_whole_lem fuel run.after some_size (omega (arith, run.fewer)) in
            record {
              after = rest.after;
              result = rw (e, execute_whole, run.result) rest.result;
              little = rest.little;
              good = λ g. rest.good (run.good g);
            }
      ]

  abbrev Timed : BatchCache r batch_size validate → BatchCache r batch_size validate → Type 0
  Timed c d =
      (d.members ≡ c.members)
      × (d.batches ≡ c.batches)
      × (r.zcard c.members % batch_size ≢ 0 → d.timer ≡ true)

  not_eqb : (a : ℕ) → not (a == 0) ≡ false → a ≡ 0
  not_eqb a h = ground arith

  timer_kept : (a b : Bool) → not a && not b ≡ false → (not a ≡ false) ⊎ (b ≡ true)
  timer_kept true b h = inl refl
  timer_kept false true h = inr refl
  timer_kept false false h = absurd (true_ne_false h)
    where
      true_ne_false : true ≡ false → ⊥
      true_ne_false e = cc

  set_timer_lem :
      (c : BatchCache r batch_size validate) → Timed c (set_timer r batch_size validate c)
  unfolding set_timer
  set_timer_lem c = elim (Bool-cases (not (r.zcard c.members % batch_size == 0) && not c.timer)) [
    | inl e ↦ rw (e, set_timer) (refl, refl, λ h. refl)
    | inr e ↦
        rw (e, set_timer)
          (
            refl,
            refl,
            λ h. elim (timer_kept (r.zcard c.members % batch_size == 0) c.timer e) [
              | inl f ↦ absurd (h (not_eqb (r.zcard c.members % batch_size) f))
              | inr f ↦ f
            ],
          )
  ]

  left_over :
      {a b : r.Members}
      → 0 < r.zcard b
      → b ≡ a
      → r.zcard a % batch_size ≡ r.zcard a
      → r.zcard a % batch_size ≡ 0
      → ⊥
  left_over h e f g = omega (arith, ap r.zcard e)

  -- With more fuel than the cache has entries, `processCache` ends with less than a batch in the cache;
  -- the timer is set if anything is left. Every batch that the callback got is not empty, within its
  -- size and valid. The size of a batch is not 0.
  pub process_cache_lem :
      (fuel : ℕ) (c : BatchCache r batch_size validate)
      → 0 < batch_size
      → r.zcard c.members < fuel
      → Processed c (process_cache r batch_size validate fuel c)
  unfolding process_cache
  process_cache_lem fuel c some_size h =
      let w = execute_whole_lem fuel c some_size h in
      let (members, batches, timed) = set_timer_lem w.after in
      let small = mod-eq_of_lt w.little in
      record {
        after = set_timer r batch_size validate w.after;
        result = rw (w.result, process_cache) refl;
        little = rw members w.little;
        good = λ g. rw batches (w.good g);
        timed = λ some_left. timed (λ e. left_over some_left members small e);
      }
