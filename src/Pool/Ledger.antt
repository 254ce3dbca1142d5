-- ===== src/Pool/Ledger.antt =====
-- What the default pool promises about nullifiers: a ledger of the spent and the pending ones, which
-- the two states of zp-relayer/pool/DefaultPool.ts implement.
use zeropool_relayer.Base.{
  ◌≡◌, refl, ap, sym, ◌∙◌, Bool, false, not, ◌&&◌, ◌||◌, Text, includes, List, [], ◌∷◌, Option, ok,
}
use zeropool_relayer.Numerals.{Numerals}
use zeropool_relayer.Pool.Amounts.{PoolConfig}
use zeropool_relayer.Pool.Default.{validate_normal_tx}
use zeropool_relayer.Pool.Default.Accepts.{validate_normal_tx-Accepted}
use zeropool_relayer.Pool.Default.Sending.{nullifier_list, on_send, on_confirmed, on_failed}
use zeropool_relayer.Pool.Types.{
  PoolTx, Services, OptionalChecks, ProcessResult, get_tx_proof_field, nullifier,
}
use zeropool_relayer.State.Services.{Storage, RedisSet}
use zeropool_relayer.State.Nullifiers
use zeropool_relayer.State.PoolState.{
  PoolState, clear_optimistic_state, rollback_to, update_state, add_tx, add_commitment,
}

-- The ledger: no order, no storage, no tree.
pub record Ledger : Type 0 where
  pub spent : Text → Bool
  pub pending : Text → Bool

abbrev pub insert : List Text → (Text → Bool) → Text → Bool
insert ns s x = includes ns x || s x

abbrev pub delete : List Text → (Text → Bool) → Text → Bool
delete ns s x = not (includes ns x) && s x

-- What happens to a pool.
pub data Event : Type 0 where
  sent : ProcessResult → Text → Event
  confirmed : ProcessResult → Text → Event
  failed : Event

-- A sent transaction is pending, a confirmed one is spent, and a failure ends what is pending.
abbrev pub ledger_step : Event → Ledger → Ledger
ledger_step (sent p tx_hash) l = record l {
  pending = insert (nullifier_list p.nullifier) l.pending;
}
ledger_step (confirmed p tx_hash) l = record {
  spent = insert (nullifier_list p.nullifier) l.spent;
  pending = delete (nullifier_list p.nullifier) l.pending;
}
ledger_step failed l = record l { pending = λ x. false }

abbrev pub ledger_run : List Event → Ledger → Ledger
ledger_run [] l = l
ledger_run (e ∷ es) l = ledger_run es (ledger_step e l)

module _ (num : Numerals) (st : Storage) (r : RedisSet) where
  abbrev Pair : Type 0
  Pair = PoolState st r × PoolState st r

  -- The same on the confirmed and the optimistic state.
  unfoldable pub pool_step : Event → Pair → Pair
  unfolding on_send on_confirmed on_failed
  pool_step (sent p tx_hash) s = (s.0, on_send num st r s.1 p tx_hash)
  pool_step (confirmed p tx_hash) s = on_confirmed num st r s.0 s.1 p tx_hash
  pool_step failed s = (s.0, on_failed num st r s.1 s.0)

  unfoldable pub pool_run : List Event → Pair → Pair
  unfolding pool_step
  pool_run [] s = s
  pool_run (e ∷ es) s = pool_run es (pool_step e s)

  -- What the two states say about nullifiers.
  unfoldable pub ledger_of : Pair → Ledger
  ledger_of s = record {
    spent = λ x. Nullifiers.is_in_set r s.0.nullifiers x;
    pending = λ x. Nullifiers.is_in_set r s.1.nullifiers x;
  }

  ledger_eq :
      {l k : Ledger}
      → ((x : Text) → l.spent x ≡ k.spent x)
      → ((x : Text) → l.pending x ≡ k.pending x)
      → l ≡ k
  ledger_eq f g = λ i. record { spent = λ x. f x i; pending = λ x. g x i }

  ledger_of-pool_step :
      (e : Event) (s : Pair) → ledger_of (pool_step e s) ≡ ledger_step e (ledger_of s)
  unfolding ledger_of pool_step on_send on_confirmed on_failed clear_optimistic_state update_state
      add_tx add_commitment
  ledger_of-pool_step (sent p tx_hash) s =
      ledger_eq (λ x. refl)
        (λ x. Nullifiers.is_in_set-add r s.1.nullifiers (nullifier_list p.nullifier) x)
  ledger_of-pool_step (confirmed p tx_hash) s =
      ledger_eq (λ x. Nullifiers.is_in_set-add r s.0.nullifiers (nullifier_list p.nullifier) x)
        (λ x. Nullifiers.is_in_set-remove r s.1.nullifiers (nullifier_list p.nullifier) x)
  ledger_of-pool_step failed s =
      ledger_eq (λ x. refl)
        (λ x.
          unfold Nullifiers.is_in_set Nullifiers.clear in
          r.sismember-del (rollback_to st r s.1 s.0).nullifiers x)

  -- The two states of the default pool implement the ledger: after any sequence of sent, confirmed and
  -- failed transactions they hold exactly the nullifiers that the ledger has as spent and as pending.
  pub ledger_of-pool_run :
      (es : List Event) (s : Pair) → ledger_of (pool_run es s) ≡ ledger_run es (ledger_of s)
  unfolding pool_run
  ledger_of-pool_run [] s = refl
  ledger_of-pool_run (e ∷ es) s =
      ledger_of-pool_run es (pool_step e s) ∙ ap (ledger_run es) (ledger_of-pool_step e s)

  spent_of : (s : Pair) (n : Text) → (ledger_of s).spent n ≡ Nullifiers.is_in_set r s.0.nullifiers n
  unfolding ledger_of
  spent_of s n = refl

  pending_of :
      (s : Pair) (n : Text) → (ledger_of s).pending n ≡ Nullifiers.is_in_set r s.1.nullifiers n
  unfolding ledger_of
  pending_of s n = refl

  ok-injective : {x y : Text} → ok x ≡ ok y → x ≡ y
  ok-injective e = cc

  -- A transaction that passes the validation after such a sequence has a nullifier that the ledger has
  -- neither as spent nor as pending.
  accepted_is_new :
      (w : Services) (c : PoolConfig) (mock : Text) (es : List Event) (s : Pair)
      (tree_proof : Option Bool) (o : OptionalChecks) (tx : PoolTx) (n : Text)
      → validate_normal_tx num st r w c mock (pool_run es s).0 (pool_run es s).1 tree_proof o tx
        ≡ ok tt
      → get_tx_proof_field tx.proof nullifier ≡ ok n
      → let ledger = ledger_run es (ledger_of s) in
        (ledger.spent n ≡ false) × (ledger.pending n ≡ false)
  accepted_is_new w c mock es s tree_proof o tx n h f =
      let a =
        validate_normal_tx-Accepted num st r w c mock (pool_run es s).0 (pool_run es s).1 tree_proof
          o tx h in
      let same = ledger_of-pool_run es s in
      let number : a.proof_nullifier ≡ n = ok-injective (sym a.nullifier_field ∙ f) in
      (
        ap (λ l. l.spent n) (sym same)
            ∙ spent_of (pool_run es s) n
            ∙ ap (Nullifiers.is_in_set r (pool_run es s).0.nullifiers) (sym number)
            ∙ a.unspent,
        ap (λ l. l.pending n) (sym same)
            ∙ pending_of (pool_run es s) n
            ∙ ap (Nullifiers.is_in_set r (pool_run es s).1.nullifiers) (sym number)
            ∙ a.not_pending,
      )
