-- ===== src/State/JobIds.antt =====
-- zp-relayer/state/jobIdsMapping.ts: `get` follows the map until an id that is not mapped.
use zeropool_relayer.Base.{
  ℕ, zero, suc, ◌<◌, ◌≡◌, Text, [], ◌∷◌, Option, none, some, arith, Option-cases, inl, inr,
}

-- `hget`, and the test `if (mappedId)`, which fails on an empty text too
unfoldable pub mapped : (Text → Option Text) → Text → Option Text
mapped hget id = elim (hget id) [
  | none ↦ none
  | some t ↦ elim t [ [] ↦ none | c ∷ s ↦ some (c ∷ s) ]
]

-- `JobIdsMapping.get`, with fuel; `none` means that it ran out
unfoldable pub get : ℕ → (Text → Option Text) → Text → Option Text
unfolding mapped
get zero hget id = none
get (suc fuel) hget id = elim (mapped hget id) [ none ↦ some id | some next ↦ get fuel hget next ]

-- Where every mapping leads to an id of a smaller rank, the lookup ends, at an id that is not mapped
-- any further.
pub get_lem :
    (hget : Text → Option Text) (rank : Text → ℕ)
    → ((id next : Text) → mapped hget id ≡ some next → rank next < rank id)
    → (fuel : ℕ) (id : Text) → rank id < fuel
    → (last : Text) × (get fuel hget id ≡ some last) × (mapped hget last ≡ none)
unfolding get
get_lem hget rank falls zero id h = elim h [ ]
get_lem hget rank falls (suc fuel) id h = elim (Option-cases (mapped hget id)) [
  | inl end ↦ (id, rw (end, get), end)
  | inr (next, e) ↦
      let (last, found, stop) =
        get_lem hget rank falls fuel next (omega (arith, falls id next e)) in
      (last, rw (e, get) found, stop)
]
