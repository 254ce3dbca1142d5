-- ===== src/Cache/Observer/Rounds.antt =====
-- What a round of the observer keeps, and when the observer ends.
use zeropool_relayer.Base.{
  ℕ, ◌≡◌, refl, sym, ◌∙◌, Bool, true, false, ◌||◌, ◌&&◌, Bool-cases, Option-cases, inl, inr, Text,
  text_eq, text_eq_refl, text_eq_sound, includes, List, [], ◌∷◌, All, length, Option, none, some,
  ok, if◌then◌else◌, arith,
}
use zeropool_relayer.Cache.{stored_tx, stored_all, get_all, remove}
use zeropool_relayer.Cache.Hash.{RedisHash, lookup}
use zeropool_relayer.Cache.Observer.{
  Round, is_expired, indexer_commitments, observe_entries, observe_round,
}
use zeropool_relayer.Numerals.{Numerals}

module _ (num : Numerals) (parse_hex : Text → ℕ) (h : RedisHash) where
  -- What a round finds at a commitment is indexed or too old.
  abbrev pub drops : List Text → ℕ → Text → Text → Bool
  drops indexed now k t = includes indexed k || is_expired now (stored_tx parse_hex t)

  abbrev drops_at : List Text → ℕ → List (Text × Text) → Text → Bool
  drops_at indexed now [] k = false
  drops_at indexed now ((commit, t) ∷ es) k =
      (text_eq commit k && drops indexed now commit t) || drops_at indexed now es k

  hget_step :
      (listed expired : Bool) (s : h.Hash) (commit k : Text)
      → h.hget (if listed then h.hdel s commit else if expired then h.hdel s commit else s) k
        ≡ (if text_eq commit k && (listed || expired) then none else h.hget s k)
  hget_step listed expired s commit k = elim (Bool-cases (text_eq commit k)) [
    | inl e ↦ ground (arith, h.hget-hdel s commit k, e)
    | inr e ↦ ground (arith, h.hget-hdel s commit k, e)
  ]

  if_or :
      (a b : Bool) (x : Option Text)
      → (if b then none else if a then none else x) ≡ (if a || b then none else x)
  if_or true true x = refl
  if_or true false x = refl
  if_or false true x = refl
  if_or false false x = refl

  hget-observe_entries :
      (indexed : List Text) (now : ℕ) (es : List (Text × Text)) (s : h.Hash) (k : Text)
      → h.hget (observe_entries num parse_hex h indexed now (stored_all parse_hex es) s) k
        ≡ (if drops_at indexed now es k then none else h.hget s k)
  unfolding observe_entries remove
  hget-observe_entries indexed now [] s k = refl
  hget-observe_entries indexed now ((commit, t) ∷ es) s k =
      hget-observe_entries indexed now es _ k
      ∙ rw (hget_step (includes indexed commit) (is_expired now (stored_tx parse_hex t)) s commit k)
          (if_or _ (drops_at indexed now es k) (h.hget s k))

  some-injective : {x y : Text} → some x ≡ some y → x ≡ y
  some-injective e = cc

  drops-drops_at :
      (indexed : List Text) (now : ℕ) (s : h.Hash) (k t : Text) (es : List (Text × Text))
      → h.hget s k ≡ some t
      → All (λ e. h.hget s e.0 ≡ some e.1) es
      → drops indexed now k t ≡ false
      → drops_at indexed now es k ≡ false
  drops-drops_at indexed now s k t [] e held kept = refl
  drops-drops_at indexed now s k t ((commit, u) ∷ es) e (at, held) kept =
      let rest = drops-drops_at indexed now s k t es e held kept in
      elim (Bool-cases (text_eq commit k)) [
        | inl f ↦
            let same : commit ≡ k = text_eq_sound commit k f in
            let value : u ≡ t = some-injective (sym at ∙ rw same e) in
            rw (same, value, rest, kept, text_eq_refl k) refl
        | inr f ↦ rw (f, rest) refl
      ]

  drops_at-lookup :
      (indexed : List Text) (now : ℕ) (k t : Text) (es : List (Text × Text))
      → lookup es k ≡ some t
      → drops indexed now k t ≡ true
      → drops_at indexed now es k ≡ true
  unfolding lookup
  drops_at-lookup indexed now k t [] e d = absurd (none_ne_some e)
    where
      none_ne_some : {v : Text} → none ≡ some v → ⊥
      none_ne_some e = cc
  drops_at-lookup indexed now k t ((commit, u) ∷ es) e d = elim (Bool-cases (text_eq commit k)) [
    | inl f ↦
        let same : commit ≡ k = text_eq_sound commit k f in
        let value : u ≡ t = some-injective (rw f at e) in rw (same, value, d, text_eq_refl k) refl
    | inr f ↦ rw (f, drops_at-lookup indexed now k t es (rw f at e) d) refl
  ]

  -- What a round leaves of the value at a commitment.
  abbrev pub remaining : List Text → ℕ → Text → Option Text → Option Text
  remaining indexed now k none = none
  remaining indexed now k (some t) = if drops indexed now k t then none else some t

  remaining-observe_entries :
      (indexed : List Text) (now : ℕ) (s : h.Hash) (k : Text)
      → h.hget (observe_entries num parse_hex h indexed now (get_all h parse_hex s) s) k
        ≡ remaining indexed now k (h.hget s k)
  unfolding get_all
  remaining-observe_entries indexed now s k =
      hget-observe_entries indexed now (h.hgetall s) s k ∙ elim (Option-cases (h.hget s k)) [
        | inl e ↦ rw e (elim (Bool-cases (drops_at indexed now (h.hgetall s) k)) [
          | inl f ↦ rw f refl
          | inr f ↦ rw f refl
        ])
        | inr (t, e) ↦ elim (Bool-cases (drops indexed now k t)) [
          | inl f ↦
              let at = drops_at-lookup indexed now k t (h.hgetall s) (h.lookup-hgetall s k ∙ e) f in
              rw (e, at, f) refl
          | inr f ↦
              let at = drops-drops_at indexed now s k t (h.hgetall s) e (h.hgetall_held s) f in
              rw (e, at, f) refl
        ]
      ]

  -- Where the indexer answers, a round removes the cached transactions whose commitments are among
  -- those of the answer and those that are more than a day old, and keeps every other one unchanged.
  pub observe_round_lem :
      (round : Round) (from_index : ℕ) (s : h.Hash) (indexed : List Text) (k : Text)
      → indexer_commitments num parse_hex round from_index (length (get_all h parse_hex s))
        ≡ ok indexed
      → h.hget (observe_round num parse_hex h round from_index s) k
        ≡ remaining indexed round.now k (h.hget s k)
  unfolding observe_round
  observe_round_lem round from_index s indexed k e =
      rw (e, observe_round) (remaining-observe_entries indexed round.now s k)
