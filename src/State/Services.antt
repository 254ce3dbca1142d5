-- ===== src/State/Services.antt =====
-- What the state takes from libzkbob-rs (MerkleTree, TxStorage) and from Redis (sets): operations and
-- their documented behaviour. Two concrete models at the end show that the laws can hold.
use zeropool_relayer.Base.{
  ℕ, ◌+◌, ◌≤◌, ◌≡◌, refl, Bool, false, not, ◌&&◌, ◌||◌, Text, includes, List, [], ◌∷◌, Option, none,
  some, ◌==◌, ltb, if◌then◌else◌, max, ◌*◌,
}

-- `MerkleTree` and `TxStorage`
pub record Storage : Type 1 where
  pub Tree : Type 0
  pub get_root : Tree → Text
  -- `getRootAt`, which throws where the tree has no root at the index
  pub get_root_at : Tree → ℕ → Option Text
  pub get_next_index : Tree → ℕ
  -- `getNode(Constants.OUTLOG, index)`
  pub get_commitment : Tree → ℕ → Text
  pub add_commitment : Tree → ℕ → Text → Tree
  pub rollback : Tree → ℕ → Tree
  pub wipe : Tree → Tree
  pub rollback_next : (t : Tree) (i : ℕ) → i ≤ get_next_index t → get_next_index (rollback t i) ≡ i
  pub wipe_next : (t : Tree) → get_next_index (wipe t) ≡ 0
  -- a commitment fills the 128 leaves of its subtree
  pub add_commitment_next :
      (t : Tree) (i : ℕ) (c : Text)
      → get_next_index (add_commitment t i c) ≡ max (get_next_index t) (i * 128 + 128)
  pub Txs : Type 0
  pub get : Txs → ℕ → Option Text
  pub add : Txs → ℕ → Text → Txs
  pub delete : Txs → ℕ → Txs
  pub get-add :
      (s : Txs) (i j : ℕ) (x : Text) → get (add s i x) j ≡ (if i == j then some x else get s j)
  pub get-delete : (s : Txs) (i j : ℕ) → get (delete s i) j ≡ (if i == j then none else get s j)

-- The set commands of Redis
pub record RedisSet : Type 1 where
  pub Members : Type 0
  pub sadd : Members → List Text → Members
  pub srem : Members → List Text → Members
  pub del : Members → Members
  pub sismember : Members → Text → Bool
  pub sismember-sadd :
      (s : Members) (xs : List Text) (x : Text)
      → sismember (sadd s xs) x ≡ includes xs x || sismember s x
  pub sismember-srem :
      (s : Members) (xs : List Text) (x : Text)
      → sismember (srem s xs) x ≡ not (includes xs x) && sismember s x
  pub sismember-del : (s : Members) (x : Text) → sismember (del s) x ≡ false

-- A set as its membership test.
abbrev pub function_set : RedisSet
function_set = record {
  Members = Text → Bool;
  sadd = λ s xs x. includes xs x || s x;
  srem = λ s xs x. not (includes xs x) && s x;
  del = λ s x. false;
  sismember = λ s x. s x;
  sismember-sadd = λ s xs x. refl;
  sismember-srem = λ s xs x. refl;
  sismember-del = λ s x. refl;
}

-- A tree as its next index and its commitments, a storage as its lookup.
abbrev pub simple_storage : Storage
simple_storage = record {
  Tree = ℕ × (ℕ → Text);
  get_root = λ t. t.0 ∷ [];
  get_root_at = λ t i. if ltb t.0 i then none else some (i ∷ []);
  get_next_index = λ t. t.0;
  get_commitment = λ t i. t.1 i;
  add_commitment = λ t i c. (max t.0 (i * 128 + 128), λ j. if i == j then c else t.1 j);
  rollback = λ t i. (i, t.1);
  wipe = λ t. (0, t.1);
  rollback_next = λ t i h. refl;
  wipe_next = λ t. refl;
  add_commitment_next = λ t i c. refl;
  Txs = ℕ → Option Text;
  get = λ s i. s i;
  add = λ s i x j. if i == j then some x else s j;
  delete = λ s i j. if i == j then none else s j;
  get-add = λ s i j x. refl;
  get-delete = λ s i j. refl;
}
