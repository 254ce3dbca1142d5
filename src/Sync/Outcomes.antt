-- ===== src/Sync/Outcomes.antt =====
-- What `syncState` leaves: a state that agrees with the contract, or a wiped one.
use zeropool_relayer.Base.{
  ℕ, zero, suc, ◌+◌, ◌≤◌, ◌≡◌, ◌≢◌, refl, ap, sym, ◌∙◌, Bool, true, false, ◌&&◌, Text, text_eq,
  text_eq_sound, Option, none, some, Failure, Outcome, ok, throws, error, ltb, ◌==◌, arith,
  Bool-cases, Option-cases, Outcome-cases, >>=-eq-ok, inl, inr,
}
use zeropool_relayer.Numerals.{Numerals}
use zeropool_relayer.State.Services.{Storage, RedisSet}
use zeropool_relayer.State.Rollback.{Wiped, wipe-Wiped}
use zeropool_relayer.State.PoolState.{get_next_index, get_merkle_root}
use zeropool_relayer.Sync.{BasePool, Chain}
use zeropool_relayer.Sync.Rounds.{
  Sources, SyncOptions, sync_round, sync_loop, compare_roots, wipe_all, sync_to, contract_info,
  sync_state,
}

module _ (num : Numerals) (st : Storage) (r : RedisSet) (chain : Chain) (sources : Sources) where
  abbrev Result : Type 0
  Result = BasePool st r × Outcome (Unit {0})

  result_of_some :
      {a b : BasePool st r} {x y : Outcome (Unit {0})}
      → ◌≡◌ {A = Option Result} (some (a, x)) (some (b, y))
      → (a ≡ b) × (x ≡ y)
  result_of_some e = (cc, cc)

  throws_ne_ok : {f : Failure} → ◌≡◌ {A = Outcome (Unit {0})} (throws f) (ok tt) → ⊥
  throws_ne_ok e = cc

  none_ne_some : {x : Result} → none ≡ some x → ⊥
  none_ne_some e = cc

  some-injective : {x y : Result} → some x ≡ some y → x ≡ y
  some-injective e = cc

  info_of_ok :
      {i j : ℕ} {s t : Text}
      → ◌≡◌ {A = Outcome (ℕ × Text)} (ok (i, s)) (ok (j, t))
      → (i ≡ j) × (s ≡ t)
  info_of_ok e = (cc, cc)

  text_ne : (s t : Text) → s ≢ t → text_eq s t ≡ false
  text_ne s t differs = elim (Bool-cases (text_eq s t)) [
    | inl e ↦ absurd (differs (text_eq_sound s t e))
    | inr e ↦ e
  ]

  and_true : (a b : Bool) → a && b ≡ true → (a ≡ true) × (b ≡ true)
  and_true true b e = (refl, e)
  and_true false b e = cc

  loop_reaches :
      (rounds fuel call : ℕ) (options : SyncOptions) (contract_index : ℕ) (p q : BasePool st r)
      → sync_loop num st r chain sources rounds fuel call options contract_index p ≡ some (q, ok tt)
      → contract_index ≤ get_next_index st r q.state
  unfolding sync_loop
  loop_reaches zero fuel call options contract_index p q e = absurd (none_ne_some e)
  loop_reaches (suc rounds) fuel call options contract_index p q e =
      elim (Bool-cases (ltb (get_next_index st r p.state) contract_index)) [
        | inr done ↦
            let same : p ≡ q = (result_of_some (rw (done, sync_loop) at e)).0 in
            rw (← same) (ground arith)
        | inl behind ↦
            let e1 = rw (behind, sync_loop) at e in
            elim (Option-cases
              (sync_round num st r chain sources fuel call options contract_index p)) [
                | inl f ↦ absurd (none_ne_some (rw f at e1))
                | inr ((q1, done), f) ↦ elim (Outcome-cases done) [
                  | inl (u, g) ↦
                      loop_reaches rounds fuel (call + fuel) options contract_index q1 q
                        (rw (f, g) at e1)
                  | inr (x, g) ↦ absurd (throws_ne_ok (result_of_some (rw (f, g) at e1)).1)
                ]
              ]
      ]

  Agrees : ℕ → Text → BasePool st r → Type 0
  Agrees contract_index contract_root q =
      (get_merkle_root st r q.state ≡ contract_root)
      × (contract_index ≤ get_next_index st r q.state)

  compare_roots_ok :
      (contract_root : Text) (p q : BasePool st r)
      → compare_roots num st r chain sources contract_root p ≡ (q, ok tt)
      → (q ≡ p) × (get_merkle_root st r p.state ≡ contract_root)
  unfolding compare_roots
  compare_roots_ok contract_root p q e =
      elim (Bool-cases (text_eq (get_merkle_root st r p.state) contract_root)) [
        | inl f ↦
            let e1 = rw (f, compare_roots) at e in (ap (λ x. x.0) (sym e1), text_eq_sound _ _ f)
        | inr f ↦ absurd (throws_ne_ok (ap (λ x. x.1) (rw (f, compare_roots) at e)))
      ]

  sync_to-Agrees :
      (rounds fuel : ℕ) (options : SyncOptions) (contract_index : ℕ) (contract_root : Text)
      (p q : BasePool st r)
      → sync_to num st r chain sources rounds fuel options contract_index contract_root p
        ≡ some (q, ok tt)
      → Agrees contract_index contract_root q
  unfolding sync_to Agrees
  sync_to-Agrees rounds fuel options contract_index contract_root p q e =
      elim (Bool-cases (
        text_eq contract_root (get_merkle_root st r p.state)
        && contract_index == get_next_index st r p.state)) [
          | inl level ↦
              let same : p ≡ q = (result_of_some (rw (level, sync_to) at e)).0 in
              let (root, index) = and_true _ _ level in
              rw (← same) (sym (text_eq_sound _ _ root), ground arith)
          | inr apart ↦
              let e1 = rw (apart, sync_to) at e in
              elim (Option-cases
                (sync_loop num st r chain sources rounds fuel 0 options contract_index p)) [
                  | inl f ↦ absurd (none_ne_some (rw f at e1))
                  | inr ((q1, done), f) ↦ elim (Outcome-cases done) [
                    | inl (u, g) ↦
                        let (same, root) =
                          compare_roots_ok contract_root q1 q (some-injective (rw (f, g) at e1)) in
                        rw same (
                          root,
                          loop_reaches rounds fuel 0 options contract_index p q1 (f ∙ rw g refl),
                        )
                    | inr (x, g) ↦ absurd (throws_ne_ok (result_of_some (rw (f, g) at e1)).1)
                  ]
                ]
        ]

  -- A synchronisation that returns leaves a confirmed state whose root is the root of the contract at
  -- its index, and which has reached that index; whichever source it used, and whatever that gave.
  pub sync_state_agrees :
      (index : Outcome ℕ) (root_at : ℕ → Outcome Text) (rounds fuel : ℕ) (options : SyncOptions)
      (p q : BasePool st r)
      → sync_state num st r chain sources index root_at rounds fuel options p ≡ some (q, ok tt)
      → (i : ℕ) × (root : Text) × (index ≡ ok i)
        × (root_at i ≡ ok root)
        × (get_merkle_root st r q.state ≡ root)
        × (i ≤ get_next_index st r q.state)
  unfolding sync_state Agrees
  sync_state_agrees index root_at rounds fuel options p q e =
      elim (Outcome-cases (contract_info index root_at)) [
        | inr (x, f) ↦ absurd (throws_ne_ok (result_of_some (rw (f, sync_state) at e)).1)
        | inl ((i, root), f) ↦
            let (j, at_j, f1) = >>=-eq-ok index _ (unfold contract_info in f) in
            let (root', at_root, f2) = >>=-eq-ok (root_at j) _ f1 in
            let (same_i, same_root) = info_of_ok f2 in
            let agrees = sync_to-Agrees rounds fuel options i root p q (rw (f, sync_state) at e) in
            (
              i,
              root,
              at_j ∙ ap ok same_i,
              rw (← same_i) (at_root ∙ ap ok same_root),
              agrees.0,
              agrees.1,
            )
      ]

  -- Where the state has reached the index of the contract but has another root than the contract, both
  -- states are wiped (index 0, no nullifier, no stored transaction at a multiple of 128 below the old
  -- index), the last confirmed block is 0 again, and the synchronisation throws.
  pub sync_state_wipes :
      (i : ℕ) (root : Text) (root_at : ℕ → Outcome Text) (rounds fuel : ℕ) (options : SyncOptions)
      (p : BasePool st r)
      → root_at i ≡ ok root
      → i ≤ get_next_index st r p.state
      → get_merkle_root st r p.state ≢ root
      → (q : BasePool st r) × (e : Failure) × (sync_state num st r chain sources
            (ok i)
            root_at
            (suc rounds)
            fuel
            options
            p
          ≡ some (q, throws e))
        × Wiped st r p.state q.state
        × Wiped st r p.optimistic q.optimistic
        × (q.last_confirmed_tx_block ≡ 0)
  unfolding sync_state contract_info sync_to compare_roots
  sync_state_wipes i root root_at rounds fuel options p f reached differs =
      let info : contract_info (ok i) root_at ≡ ok (i, root) = rw f refl in
      let apart : text_eq root (get_merkle_root st r p.state) ≡ false =
        text_ne _ _ (λ e. differs (sym e)) in
      let other : text_eq (get_merkle_root st r p.state) root ≡ false = text_ne _ _ differs in
      let level : ltb (get_next_index st r p.state) i ≡ false = ground arith in
      (
        wipe_all num st r chain sources p,
        error "State is corrupted, roots mismatch. State was wiped",
        rw (info, sync_state, apart, sync_to, level, sync_loop, other, compare_roots) refl,
        (unfold wipe_all in wipe-Wiped st r p.state),
        (unfold wipe_all in wipe-Wiped st r p.optimistic),
        (unfold wipe_all in refl),
      )
