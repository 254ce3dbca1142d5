-- ===== src/Providers/Answers.antt =====
-- Which URL answers, and where the provider stands afterwards.
use native.Mathlib.Nat.{mod_self, mod-eq_of_lt}
use mathlib.Core.Path.{subst}
use zeropool_relayer.Base.{
  ℕ, suc, ◌+◌, ◌%◌, ◌<◌, ◌≡◌, ◌↔◌, sym, some, Failure, Outcome, throws, ltb, ◌==◌, if◌then◌else◌,
  arith, ltb→lt, lt→ltb, ==_iff, Bool-cases, inl, inr,
}
use zeropool_relayer.Providers.{
  HttpListProvider, update_url_index, switch_back, fallback_rpc_url_switch_timeout,
}

module _ (urls : ℕ) where
  wraps : (i : ℕ) → i < urls → ((i + 1) % urls ≡ 0) ↔ (suc i ≡ urls)
  wraps i h = elim (Bool-cases (ltb (i + 1) urls)) [
    | inl e ↦
        let small : (i + 1) % urls ≡ i + 1 = mod-eq_of_lt (ltb→lt (i + 1) urls e) in
        ((λ z. omega (arith, z, small, ltb→lt (i + 1) urls e)), λ l. grind arith)
    | inr f ↦
        let all : urls ≡ i + 1 = ground arith in
        ((λ z. ground arith), λ l. subst (λ n. (i + 1) % n ≡ 0) (sym all) (mod_self (i + 1)))
  ]

  update_next :
      (p : HttpListProvider)
      → (update_url_index urls (some 0) p).current_index ≡ (p.current_index + 1) % urls
  unfolding update_url_index
  update_next p = elim (Bool-cases (p.current_index == (p.current_index + 1) % urls)) [
    | inl e ↦ rw e ((==_iff p.current_index ((p.current_index + 1) % urls)).0 e)
    | inr f ↦ rw f
  ]

  -- A provider that has used a fallback URL for more than an hour since its last request to the primary
  -- one does not switch to the primary URL unless the fallback is the last of the list: it moves on to
  -- the URL after the current one.
  pub switch_back_lem :
      (now : ℕ) (p : HttpListProvider)
      → 0 < p.current_index
      → p.current_index < urls
      → p.last_time_used_primary + fallback_rpc_url_switch_timeout < now
      → ((switch_back urls now p).current_index ≡ (p.current_index + 1) % urls)
        × ((switch_back urls now p).current_index ≡ 0 ↔ suc p.current_index ≡ urls)
  unfolding switch_back
  switch_back_lem now p fallback inside late =
      let next : (switch_back urls now p).current_index ≡ (p.current_index + 1) % urls =
        rw
          (
            lt→ltb 0 p.current_index fallback,
            lt→ltb (p.last_time_used_primary + fallback_rpc_url_switch_timeout) now late,
          )
          (update_next p) in
      (
        next,
        subst (λ k. (k ≡ 0) ↔ (suc p.current_index ≡ urls)) (sym next)
            (wraps p.current_index inside),
      )

  -- where a provider at one index stands after the URL of another has answered
  abbrev pub settled : ℕ → ℕ → ℕ
  settled from index =
      if from == index then from else if index == 0 then (from + 1) % urls else index

  module _ {A : Type 0} where
    -- the URLs that are asked before the k-th one from an index on throw
    abbrev pub AllThrow : (ℕ → Outcome A) → ℕ → ℕ → Type 0
    AllThrow answer from k =
        (j : ℕ) → j < k → (e : Failure) × (answer ((from + j) % urls) ≡ throws e)
