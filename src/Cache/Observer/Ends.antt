-- ===== src/Cache/Observer/Ends.antt =====
-- When the observer ends.
use mathlib.Core.Path.{subst}
use zeropool_relayer.Base.{
  lt→ltb, ◌⊎◌, ◌<◌, ℕ, zero, suc, ◌+◌, ◌≡◌, refl, sym, ◌∙◌, Bool, true, false, ◌||◌, Bool-cases,
  Option-cases, inl, inr, Text, includes, List, [], ◌∷◌, All, length, Option, none, some, ok, arith,
  >>=-of-ok, Outcome-cases, List-cases, map, ◌-◌, ◌/◌,
}
use zeropool_relayer.Cache.{stored_tx, get_all}
use zeropool_relayer.Cache.Hash.{RedisHash}
use zeropool_relayer.Cache.Observer.{
  Round, is_expired, observe_from, indexer_commitments, observe_round, observe_loop,
  indexer_commitment, local_cache_observer_worker,
}
use zeropool_relayer.Numerals.{Numerals}
use zeropool_relayer.Cache.Observer.Rounds.{drops, remaining, observe_round_lem}

module _ (num : Numerals) (parse_hex : Text → ℕ) (h : RedisHash) where
  -- No round adds a transaction or changes one.
  Shrinks : h.Hash → h.Hash → Type 0
  Shrinks s s' = (k t : Text) → h.hget s' k ≡ some t → h.hget s k ≡ some t

  remaining_of_some :
      (indexed : List Text) (now : ℕ) (k t : Text) (x : Option Text)
      → remaining num parse_hex h indexed now k x ≡ some t
      → x ≡ some t
  remaining_of_some indexed now k t none e = e
  remaining_of_some indexed now k t (some u) e =
      elim (Bool-cases (drops num parse_hex h indexed now k u)) [
        | inl f ↦ absurd (none_ne_some (rw f at e))
        | inr f ↦ rw f at e
      ]
    where
      none_ne_some : {v : Text} → none ≡ some v → ⊥
      none_ne_some e = cc

  Shrinks-observe_round :
      (round : Round) (from_index : ℕ) (s : h.Hash)
      → Shrinks s (observe_round num parse_hex h round from_index s)
  unfolding Shrinks observe_round
  Shrinks-observe_round round from_index s k t e =
      elim (Outcome-cases
        (indexer_commitments num parse_hex round from_index (length (get_all h parse_hex s)))) [
          | inl (indexed, f) ↦
              remaining_of_some indexed round.now k t (h.hget s k)
                (sym (observe_round_lem num parse_hex h round from_index s indexed k f) ∙ e)
          | inr (x, f) ↦ rw (f, observe_round) at e
        ]

  abbrev pub Answers : Round → ℕ → Type 0
  Answers round from_index =
      (o : ℕ) × (round.indexer_info ≡ ok o)
      × ((limit : ℕ) → (txs : List Text) × (round.indexer_txs from_index limit ≡ ok txs))

  commitments-Answers :
      (round : Round) (from_index entries : ℕ)
      → Answers round from_index
      → (indexed : List Text) × (indexer_commitments num parse_hex round from_index entries
          ≡ ok indexed)
  unfolding indexer_commitments
  commitments-Answers round from_index entries (o, info, txs) =
      let (page, answered) = txs ((o - from_index) / 128 + entries + 10) in
      (
        map (indexer_commitment num parse_hex) page,
        >>=-of-ok round.indexer_info _ o info
            (>>=-of-ok (round.indexer_txs from_index _) _ page answered refl),
      )

  -- A cached transaction is more than a day old, in milliseconds.
  abbrev pub IsOld : ℕ → Text → Type 0
  IsOld now t = (stored_tx parse_hex t).timestamp + 86400000 < now

  old_is_expired :
      (now : ℕ) (t : Text) → IsOld now t → is_expired now (stored_tx parse_hex t) ≡ true
  unfolding is_expired
  old_is_expired now t old = lt→ltb _ now old

  -- Every cached transaction is more than a day old.
  abbrev pub Stale : ℕ → h.Hash → Type 0
  Stale now s = (k t : Text) → h.hget s k ≡ some t → IsOld now t

  or_true : (a b : Bool) → b ≡ true → a || b ≡ true
  or_true true b e = refl
  or_true false b e = e

  gone :
      (round : Round) (from_index : ℕ) (s : h.Hash) (k : Text)
      → Answers round from_index
      → Stale round.now s
      → h.hget (observe_round num parse_hex h round from_index s) k ≡ none
  gone round from_index s k a old =
      let (indexed, f) = commitments-Answers round from_index (length (get_all h parse_hex s)) a in
      observe_round_lem num parse_hex h round from_index s indexed k f
      ∙ elim (Option-cases (h.hget s k)) [
        | inl e ↦ rw e refl
        | inr (t, e) ↦
            rw (e, or_true (includes indexed k) _ (old_is_expired round.now t (old k t e))) refl
      ]

  none_listed :
      (s : h.Hash) (es : List (Text × Text))
      → ((k : Text) → h.hget s k ≡ none)
      → All (λ e. h.hget s e.0 ≡ some e.1) es
      → es ≡ []
  none_listed s [] empty held = refl
  none_listed s ((k, t) ∷ es) empty (at, held) = absurd (none_ne_some (sym (empty k) ∙ at))
    where
      none_ne_some : {v : Text} → none ≡ some v → ⊥
      none_ne_some e = cc

  emptied : (s : h.Hash) → ((k : Text) → h.hget s k ≡ none) → get_all h parse_hex s ≡ []
  unfolding get_all
  emptied s empty = rw (none_listed s (h.hgetall s) empty (h.hgetall_held s)) refl

  loop_step :
      (rounds : ℕ → Round) (sends : ℕ → h.Hash → h.Hash) (from_index fuel i : ℕ) (s : h.Hash)
      → (observe_loop num parse_hex h rounds sends from_index fuel
          (suc i)
          (sends i (observe_round num parse_hex h (rounds i) from_index s))).1
        ≡ true
      → (observe_loop num parse_hex h rounds sends from_index (suc fuel) i s).1 ≡ true
  unfolding observe_loop
  loop_step rounds sends from_index fuel i s e = elim (List-cases (get_all h parse_hex s)) [
    | inl f ↦ rw (f, observe_loop) refl
    | inr (x, es, f) ↦ rw (f, observe_loop) e
  ]

  loop_empty :
      (rounds : ℕ → Round) (sends : ℕ → h.Hash → h.Hash) (from_index fuel i : ℕ) (s : h.Hash)
      → ((k : Text) → h.hget s k ≡ none)
      → (observe_loop num parse_hex h rounds sends from_index (suc fuel) i s).1 ≡ true
  unfolding observe_loop
  loop_empty rounds sends from_index fuel i s empty = rw (emptied s empty, observe_loop) refl

  -- What is new in the cache after a step is more than a day old at the time.
  abbrev pub AddsStale : ℕ → (h.Hash → h.Hash) → Type 0
  AddsStale now send =
      (s : h.Hash) (k t : Text) → h.hget (send s) k ≡ some t → (h.hget s k ≡ some t) ⊎ IsOld now t

  -- A step that adds nothing to the cache.
  abbrev pub AddsNothing : (h.Hash → h.Hash) → Type 0
  AddsNothing send = (s : h.Hash) (k t : Text) → h.hget (send s) k ≡ some t → h.hget s k ≡ some t

  stays_empty :
      (send : h.Hash → h.Hash) (s : h.Hash)
      → AddsNothing send
      → ((k : Text) → h.hget s k ≡ none)
      → (k : Text) → h.hget (send s) k ≡ none
  stays_empty send s quiet empty k = elim (Option-cases (h.hget (send s) k)) [
    | inl e ↦ e
    | inr (t, e) ↦ absurd (none_ne_some (sym (empty k) ∙ quiet s k t e))
  ]
    where
      none_ne_some : {v : Text} → none ≡ some v → ⊥
      none_ne_some e = cc

  observe_round-Stale :
      (round : Round) (send : h.Hash → h.Hash) (from_index now : ℕ) (s : h.Hash)
      → AddsStale now send
      → Stale now s
      → Stale now (send (observe_round num parse_hex h round from_index s))
  unfolding Shrinks
  observe_round-Stale round send from_index now s late old k t e = elim (late _ k t e) [
    | inl f ↦ old k t (Shrinks-observe_round round from_index s k t f)
    | inr f ↦ f
  ]

  loop_ends :
      (rounds : ℕ → Round) (sends : ℕ → h.Hash → h.Hash) (from_index d i : ℕ) (s : h.Hash)
      → Answers (rounds (i + d)) from_index
      → Stale (rounds (i + d)).now s
      → ((j : ℕ) → j < i + d → AddsStale (rounds (i + d)).now (sends j))
      → AddsNothing (sends (i + d))
      → (observe_loop num parse_hex h rounds sends from_index (suc (suc d)) i s).1 ≡ true
  loop_ends rounds sends from_index zero i s a old late quiet =
      let same : i + 0 ≡ i = omega arith in
      loop_step rounds sends from_index 1 i s (
        loop_empty rounds sends from_index 0 (suc i) _ (
          stays_empty (sends i) _ (rw same at quiet)
            (λ k. gone (rounds i) from_index s k (rw same at a) (rw same at old))))
  loop_ends rounds sends from_index (suc d) i s a old late quiet =
      let same : i + suc d ≡ suc i + d = omega arith in
      let s' = sends i (observe_round num parse_hex h (rounds i) from_index s) in
      loop_step rounds sends from_index (suc (suc d)) i s (
        loop_ends rounds sends from_index d (suc i) s' (rw same at a)
          (subst (λ n. Stale (rounds n).now s') same
            (observe_round-Stale (rounds i) (sends i) from_index (rounds (i + suc d)).now s
              (late i (omega arith)) old))
          (λ j l. subst (λ n. AddsStale (rounds n).now (sends j)) same (late j (omega arith)))
          (rw same at quiet))

  -- The observer ends after round n at the latest, where the indexer answers in that round, every
  -- transaction that was cached at the start or was sent before that round is more than a day old by
  -- then, and none is sent between that round and the next.
  pub observer_ends :
      (rounds : ℕ → Round) (sends : ℕ → h.Hash → h.Hash) (n from_index : ℕ) (s : h.Hash)
      → Answers (rounds n) (observe_from from_index)
      → Stale (rounds n).now s
      → ((j : ℕ) → j < n → AddsStale (rounds n).now (sends j))
      → AddsNothing (sends n)
      → (local_cache_observer_worker num parse_hex h rounds sends (n + 2) from_index s).1 ≡ true
  unfolding local_cache_observer_worker
  observer_ends rounds sends n from_index s a old late quiet =
      let fuel : n + 2 ≡ suc (suc n) = omega arith in
      let start : 0 + n ≡ n = omega arith in
      rw fuel (
        loop_ends rounds sends (observe_from from_index) n 0 s (rw start a) (rw start old)
          (λ j l.
            subst (λ m. AddsStale (rounds m).now (sends j)) (sym start) (late j (omega arith)))
          (rw start quiet))
