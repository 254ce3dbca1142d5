-- ===== src/Batch/Assembly.antt =====
-- The loop of `execute` ends, with a batch that is valid and not too long.
use zeropool_relayer.Base.{
  ℕ, zero, suc, ◌-◌, ◌≤◌, ◌<◌, ◌≡◌, refl, ◌⊎◌, inl, inr, Bool, true, false, ◌&&◌, List, [], ◌∷◌,
  ◌++◌, length, length-append, All, All-append, Option, some, ltb, ◌==◌, min, arith, Bool-cases,
}
use zeropool_relayer.Batch.{SortedSet, fulfilled, take_entries, assemble}

goes_on : (a b c d : ℕ) → (ltb a b && c == d) ≡ true → (a < b) × (c ≡ d)
goes_on a b c d h = ground arith

finished :
    (a b c d z z' : ℕ)
    → a ≤ b
    → (ltb a b && c == d) ≡ false
    → d ≡ min c z
    → z' ≡ z - c
    → (a ≡ b) ⊎ (z' ≡ 0)
finished a b c d z z' le h e f = ground arith

module _ {E : Type 0} (r : SortedSet E) (batch_size : ℕ) (validate : E → Bool) where
  length-fulfilled : (es : List E) → length (fulfilled validate es) ≤ length es
  length-fulfilled [] = omega arith
  length-fulfilled (e ∷ es) = elim (Bool-cases (validate e)) [
    | inl h ↦ rw h (omega (arith, length-fulfilled es))
    | inr h ↦ rw h (omega (arith, length-fulfilled es))
  ]

  All-fulfilled : (es : List E) → All (λ e. validate e ≡ true) (fulfilled validate es)
  All-fulfilled [] = tt
  All-fulfilled (e ∷ es) = elim (Bool-cases (validate e)) [
    | inl h ↦ rw h (h, All-fulfilled es)
    | inr h ↦ rw h (All-fulfilled es)
  ]

  length-take_entries :
      (s : r.Members) (n : ℕ)
      → length (take_entries r batch_size validate s n).0 ≡ min n (r.zcard s)
  unfolding take_entries
  length-take_entries s zero = omega arith
  length-take_entries s (suc n) = r.length-zpopmin s (suc n)

  pub zcard-take_entries :
      (s : r.Members) (n : ℕ) → r.zcard (take_entries r batch_size validate s n).1 ≡ r.zcard s - n
  unfolding take_entries
  zcard-take_entries s zero = omega arith
  zcard-take_entries s (suc n) = r.zcard-zpopmin s (suc n)

  -- A batch within its size, of valid entries; it is full, or the set is empty.
  pub record Assembled (o : Option (List E × r.Members)) : Type 0 where
    pub batch : List E
    pub left : r.Members
    pub result : o ≡ some (batch, left)
    pub short : length batch ≤ batch_size
    pub valid : All (λ e. validate e ≡ true) batch
    pub full_or_drained : (length batch ≡ batch_size) ⊎ (r.zcard left ≡ 0)

  -- With more fuel than the set has entries, and from valid entries that do not fill the batch, the
  -- loop ends: its batch is within its size and valid, and it is full or the set is empty.
  pub assemble_lem :
      (fuel : ℕ) (validated : List E) (s : r.Members)
      → length validated < batch_size
      → All (λ e. validate e ≡ true) validated
      → r.zcard s < fuel
      → Assembled (assemble r batch_size validate fuel validated s)
  unfolding assemble
  assemble_lem zero validated s h v f = absurd (omega arith)
  assemble_lem (suc fuel) validated s h v f =
      let count = batch_size - length validated in
      let es = (take_entries r batch_size validate s count).0 in
      let s' = (take_entries r batch_size validate s count).1 in
      let good = fulfilled validate es in
      let valid = All-append (λ e. validate e ≡ true) validated good v (All-fulfilled es) in
      let popped = length-take_entries s count in
      let rest = zcard-take_entries s count in
      let sum = length-append {A = E} validated good in
      let few = length-fulfilled es in
      elim (Bool-cases (ltb (length (validated ++ good)) batch_size && count == length es)) [
        | inl more ↦
            (let (room, got) =
                goes_on (length (validated ++ good)) batch_size count (length es) more in
              rw (more, assemble)
                (assemble_lem fuel (validated ++ good) s' room valid (omega arith)))
        | inr done ↦
            rw (done, assemble)
              (record {
                batch = validated ++ good;
                left = s';
                result = refl;
                short = omega arith;
                valid = valid;
                full_or_drained =
                    finished (length (validated ++ good)) batch_size count (length es) (r.zcard s)
                      (r.zcard s') (omega arith) done popped rest;
              })
      ]
