-- ===== src/Endpoints/Pending.antt =====
-- The page of the relayer: the indexer's answer, then the cached transactions that it lacks.
use mathlib.Core.Path.{subst}
use mathlib.Core.List.{Perm, perm_middle}
use mathlib.Core.List.Perm
use zeropool_relayer.Base.{
  ℕ, zero, suc, ◌-◌, ◌≤◌, ◌≡◌, refl, ap, sym, Text, includes, List, [], ◌∷◌, ◌++◌, All, length, map,
  append-nil, take, codes, leb, ltb, arith, Bool-cases, inl, inr, if◌then◌else◌,
}
use zeropool_relayer.Cache.{StoredTx}
use zeropool_relayer.Cache.Observer.{indexer_commitment}
use zeropool_relayer.Endpoints.{relayer_page, pending_txs, sort_by_time, sort_from, insert_by_time}
use zeropool_relayer.Helpers.Hex.{tx_to_v2_format}
use zeropool_relayer.Numerals.{Numerals}

-- The entries that the indexer lacks, in the format of the relayer.
unfoldable pub unindexed : List Text → List (Text × StoredTx) → List Text
unfolding includes tx_to_v2_format
unindexed indexed [] = []
unindexed indexed ((commit, tx) ∷ es) =
    let rest = unindexed indexed es in
    if includes indexed commit then rest else tx_to_v2_format (codes "0") tx.memo ∷ rest

take-nil : (n : ℕ) → take {A = Text} n [] ≡ []
take-nil zero = refl
take-nil (suc n) = refl

pending_txs-eq-take :
    (limit : ℕ) (indexed : List Text) (found : ℕ) (es : List (Text × StoredTx))
    → pending_txs limit indexed found es ≡ take (limit - found) (unindexed indexed es)
unfolding pending_txs unindexed
pending_txs-eq-take limit indexed found [] = sym (take-nil (limit - found))
pending_txs-eq-take limit indexed found ((commit, tx) ∷ es) = elim (Bool-cases (leb limit found)) [
  | inl e ↦ let full : limit - found ≡ 0 = ground arith in rw (e, full) refl
  | inr e ↦ elim (Bool-cases (includes indexed commit)) [
    | inl f ↦ rw (e, f) (pending_txs-eq-take limit indexed found es)
    | inr f ↦
        let room : limit - found ≡ suc (limit - suc found) = ground arith in
        rw (e, f, room)
          (ap (λ l. tx_to_v2_format (codes "0") tx.memo ∷ l)
            (pending_txs-eq-take limit indexed (suc found) es))
  ]
]

-- Entries in the order of their times.
abbrev pub IsSorted : List (Text × StoredTx) → Type 0
IsSorted [] = Unit
IsSorted (e ∷ es) = All (λ f. e.1.timestamp ≤ f.1.timestamp) es × IsSorted es

All-insert :
    (b : ℕ) (e : Text × StoredTx) (es : List (Text × StoredTx))
    → b ≤ e.1.timestamp
    → All (λ f. b ≤ f.1.timestamp) es
    → All (λ f. b ≤ f.1.timestamp) (insert_by_time e es)
unfolding insert_by_time
All-insert b e [] h a = (h, tt)
All-insert b e (f ∷ es) h (a, rest) = elim (Bool-cases (ltb e.1.timestamp f.1.timestamp)) [
  | inl c ↦ rw c (h, (a, rest))
  | inr c ↦ rw c (a, All-insert b e es h rest)
]

All-weaken :
    (a b : ℕ) (es : List (Text × StoredTx))
    → a ≤ b
    → All (λ f. b ≤ f.1.timestamp) es
    → All (λ f. a ≤ f.1.timestamp) es
All-weaken a b [] h all = tt
All-weaken a b (e ∷ es) h (x, rest) = (omega arith, All-weaken a b es h rest)

insert_by_time-IsSorted :
    (e : Text × StoredTx) (es : List (Text × StoredTx))
    → IsSorted es
    → IsSorted (insert_by_time e es)
unfolding insert_by_time
insert_by_time-IsSorted e [] s = (tt, tt)
insert_by_time-IsSorted e (f ∷ es) (a, s) = elim (Bool-cases (ltb e.1.timestamp f.1.timestamp)) [
  | inl c ↦
      let below : e.1.timestamp ≤ f.1.timestamp = ground arith in
      rw c ((below, All-weaken e.1.timestamp f.1.timestamp es below a), (a, s))
  | inr c ↦
      let above : f.1.timestamp ≤ e.1.timestamp = ground arith in
      rw c (All-insert f.1.timestamp e es above a, insert_by_time-IsSorted e es s)
]

insert_by_time-perm :
    (e : Text × StoredTx) (es : List (Text × StoredTx)) → Perm (insert_by_time e es) (e ∷ es)
unfolding insert_by_time
insert_by_time-perm e [] = Perm.refl (e ∷ [])
insert_by_time-perm e (f ∷ es) = elim (Bool-cases (ltb e.1.timestamp f.1.timestamp)) [
  | inl c ↦ rw c (Perm.refl (e ∷ f ∷ es))
  | inr c ↦ rw c (Perm.trans (Perm.cons f (insert_by_time-perm e es)) (Perm.swap e f es))
]

sort_from-IsSorted :
    (es sorted : List (Text × StoredTx)) → IsSorted sorted → IsSorted (sort_from es sorted)
unfolding sort_from
sort_from-IsSorted [] sorted s = s
sort_from-IsSorted (e ∷ es) sorted s =
    sort_from-IsSorted es (insert_by_time e sorted) (insert_by_time-IsSorted e sorted s)

sort_from-perm : (es sorted : List (Text × StoredTx)) → Perm (sort_from es sorted) (es ++ sorted)
unfolding sort_from
sort_from-perm [] sorted = Perm.refl sorted
sort_from-perm (e ∷ es) sorted =
    Perm.trans (sort_from-perm es (insert_by_time e sorted))
      (Perm.trans (Perm.append_left es (insert_by_time-perm e sorted)) (perm_middle es sorted))

-- A page of the relayer is the answer of the indexer, followed by the cached transactions whose
-- commitments the answer lacks, the oldest first, as many as the limit leaves room for; the order by
-- time leaves none of them out.
pub relayer_page_lem :
    (num : Numerals) (parse_hex : Text → ℕ) (limit : ℕ) (indexer_txs : List Text)
    (entries : List (Text × StoredTx))
    → let indexed = map (indexer_commitment num parse_hex) indexer_txs in
      (relayer_page num parse_hex limit indexer_txs entries
        ≡ indexer_txs
          ++ take (limit - length indexer_txs) (unindexed indexed (sort_by_time entries)))
      × IsSorted (sort_by_time entries)
      × Perm (sort_by_time entries) entries
unfolding relayer_page
relayer_page_lem num parse_hex limit indexer_txs entries = (
  ap (λ l. indexer_txs ++ l)
      (pending_txs-eq-take limit _ (length indexer_txs) (sort_by_time entries)),
  sort_from-IsSorted entries [] tt,
  subst (λ l. Perm (sort_from entries []) l) (append-nil entries) (sort_from-perm entries []),
)
