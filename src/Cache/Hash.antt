-- ===== src/Cache/Hash.antt =====
-- The hash commands of Redis that zp-relayer/state/TxStore.ts calls: operations and their documented
-- behaviour, and a model of them by a list of pairs.
use zeropool_relayer.Base.{
  ◌≡◌, refl, sym, ◌∙◌, true, Bool-cases, inl, inr, Text, text_eq, text_eq_refl, text_eq_sound, List,
  [], ◌∷◌, All, Option, none, some, if◌then◌else◌,
}

-- The value of the first pair with the key.
unfoldable pub lookup : List (Text × Text) → Text → Option Text
unfolding text_eq
lookup [] k = none
lookup ((j, v) ∷ es) k = if text_eq j k then some v else lookup es k

pub record RedisHash : Type 1 where
  pub Hash : Type 0
  pub hset : Hash → Text → Text → Hash
  pub hdel : Hash → Text → Hash
  pub hget : Hash → Text → Option Text
  pub hgetall : Hash → List (Text × Text)
  pub hget-hset :
      (s : Hash) (k v j : Text) → hget (hset s k v) j ≡ (if text_eq k j then some v else hget s j)
  pub hget-hdel :
      (s : Hash) (k j : Text) → hget (hdel s k) j ≡ (if text_eq k j then none else hget s j)
  -- all keys are listed, with their values and no others
  pub lookup-hgetall : (s : Hash) (k : Text) → lookup (hgetall s) k ≡ hget s k
  pub hgetall_held : (s : Hash) → All (λ e. hget s e.0 ≡ some e.1) (hgetall s)

-- The pairs with other keys.
unfoldable pub without : Text → List (Text × Text) → List (Text × Text)
unfolding text_eq
without k [] = []
without k ((j, v) ∷ es) = let rest = without k es in if text_eq k j then rest else (j, v) ∷ rest

text_eq_sym : (s t : Text) → text_eq s t ≡ true → text_eq t s ≡ true
text_eq_sym s t e = rw (text_eq_sound s t e) (text_eq_refl t)

pub lookup-without :
    (es : List (Text × Text)) (k j : Text)
    → lookup (without k es) j ≡ (if text_eq k j then none else lookup es j)
unfolding lookup without
lookup-without [] k j = elim (Bool-cases (text_eq k j)) [ inl e ↦ rw e refl | inr e ↦ rw e refl ]
lookup-without ((i, v) ∷ es) k j = elim (Bool-cases (text_eq k i)) [
  | inl e ↦
      rw (e, ← text_eq_sound k i e, lookup-without es k j)
        (elim (Bool-cases (text_eq k j)) [ inl f ↦ rw f refl | inr f ↦ rw f refl ])
  | inr e ↦ elim (Bool-cases (text_eq i j)) [
    | inl f ↦ rw (e, lookup, f, ← text_eq_sound i j f, e) refl
    | inr f ↦ rw (e, lookup, f, lookup-without es k j) refl
  ]
]

-- A list without repeated keys.
abbrev pub Distinct : List (Text × Text) → Type 0
Distinct [] = Unit
Distinct ((k, v) ∷ es) = (lookup es k ≡ none) × Distinct es

pub Distinct-without : (k : Text) (es : List (Text × Text)) → Distinct es → Distinct (without k es)
unfolding without
Distinct-without k [] d = tt
Distinct-without k ((i, v) ∷ es) (d, ds) = elim (Bool-cases (text_eq k i)) [
  | inl e ↦ rw e (Distinct-without k es ds)
  | inr e ↦ rw e (rw (lookup-without es k i, e) d, Distinct-without k es ds)
]

none_ne_some : {v : Text} → none ≡ some v → ⊥
none_ne_some e = cc

-- A pair in front with another key hides nothing.
lookup_tail :
    (k v : Text) (es : List (Text × Text)) (j w : Text)
    → lookup es k ≡ none
    → lookup es j ≡ some w
    → lookup ((k, v) ∷ es) j ≡ some w
unfolding lookup
lookup_tail k v es j w d e = elim (Bool-cases (text_eq k j)) [
  | inl f ↦ absurd (none_ne_some {v = w} (sym d ∙ rw (text_eq_sound k j f) e))
  | inr f ↦ rw f e
]

All-tail :
    (k v : Text) (es fs : List (Text × Text))
    → lookup es k ≡ none
    → All (λ e. lookup es e.0 ≡ some e.1) fs
    → All (λ e. lookup ((k, v) ∷ es) e.0 ≡ some e.1) fs
All-tail k v es [] d a = tt
All-tail k v es ((j, w) ∷ fs) d (a, rest) = (lookup_tail k v es j w d a, All-tail k v es fs d rest)

pub Distinct-held : (es : List (Text × Text)) → Distinct es → All (λ e. lookup es e.0 ≡ some e.1) es
unfolding lookup
Distinct-held [] d = tt
Distinct-held ((k, v) ∷ es) (d, ds) =
    (rw (text_eq_refl k), All-tail k v es es d (Distinct-held es ds))

-- `hset` puts the pair in front and drops the old one.
pub lookup_set :
    (es : List (Text × Text)) (k v j : Text)
    → lookup ((k, v) ∷ without k es) j ≡ (if text_eq k j then some v else lookup es j)
unfolding lookup
lookup_set es k v j = elim (Bool-cases (text_eq k j)) [
  | inl e ↦ rw e refl
  | inr e ↦ rw (e, lookup-without es k j, e) refl
]

pub Distinct-set :
    (es : List (Text × Text)) (k v : Text) → Distinct es → Distinct ((k, v) ∷ without k es)
Distinct-set es k v d = (rw (lookup-without es k k, text_eq_refl k), Distinct-without k es d)

-- A hash as a list of pairs.
abbrev pub pair_hash : RedisHash
pair_hash = record {
  Hash = (es : List (Text × Text)) × Distinct es;
  hset = λ s k v. ((k, v) ∷ without k s.0, Distinct-set s.0 k v s.1);
  hdel = λ s k. (without k s.0, Distinct-without k s.0 s.1);
  hget = λ s k. lookup s.0 k;
  hgetall = λ s. s.0;
  hget-hset = λ s k v j. lookup_set s.0 k v j;
  hget-hdel = λ s k j. lookup-without s.0 k j;
  lookup-hgetall = λ s k. refl;
  hgetall_held = λ s. Distinct-held s.0 s.1;
}
