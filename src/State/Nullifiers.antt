-- ===== src/State/Nullifiers.antt =====
-- zp-relayer/state/nullifierSet.ts
use zeropool_relayer.Base.{◌≡◌, refl, Bool, not, ◌&&◌, ◌||◌, Text, includes, List, [], ◌∷◌}
use zeropool_relayer.State.Services.{RedisSet}

module _ (r : RedisSet) where
  unfoldable pub add : r.Members → List Text → r.Members
  add s [] = s
  add s (n ∷ ns) = r.sadd s (n ∷ ns)

  unfoldable pub remove : r.Members → List Text → r.Members
  remove s [] = s
  remove s (n ∷ ns) = r.srem s (n ∷ ns)

  -- the answers 0 and 1 of `sismember` are false and true
  unfoldable pub is_in_set : r.Members → Text → Bool
  is_in_set s nullifier = r.sismember s nullifier

  unfoldable pub clear : r.Members → r.Members
  clear s = r.del s

  -- An added list is in the set, and nothing else changes.
  pub is_in_set-add :
      (s : r.Members) (ns : List Text) (x : Text)
      → is_in_set (add s ns) x ≡ includes ns x || is_in_set s x
  unfolding add is_in_set includes
  is_in_set-add s [] x = refl
  is_in_set-add s (n ∷ ns) x = r.sismember-sadd s (n ∷ ns) x

  -- A removed list is not in the set, and nothing else changes.
  pub is_in_set-remove :
      (s : r.Members) (ns : List Text) (x : Text)
      → is_in_set (remove s ns) x ≡ not (includes ns x) && is_in_set s x
  unfolding remove is_in_set includes
  is_in_set-remove s [] x = refl
  is_in_set-remove s (n ∷ ns) x = r.sismember-srem s (n ∷ ns) x
