-- ===== src/Calldata/Pieces.antt =====
-- `data.join('')`, and what a cut at the place of a piece gives back.
use zeropool_relayer.Base.{
  ℕ, zero, suc, ◌+◌, ◌≡◌, ap, ◌∙◌, Text, List, [], ◌∷◌, ◌++◌, length, drop, slice, none, some,
  get_elem?, take-append_length, arith,
}

unfoldable pub join : List Text → Text
join [] = []
join (p ∷ ps) = p ++ join ps

-- The length of the first `k` pieces.
abbrev pub offset : List Text → ℕ → ℕ
offset ps zero = 0
offset [] (suc k) = 0
offset (p ∷ ps) (suc k) = length p + offset ps k

-- The pieces after the first k, the k-th in front.
pub drop-join :
    (ps : List Text) (k : ℕ) (p : Text)
    → get_elem? ps k ≡ some p
    → (rest : Text) × (drop (offset ps k) (join ps) ≡ p ++ rest)
unfolding join
drop-join [] k p e = absurd (none_not_some e)
  where
    none_not_some : {A : Type 0} {x : A} → none ≡ some x → ⊥
    none_not_some e = cc
drop-join (q ∷ ps) zero p e = (join ps, rw (some-injective e))
  where
    some-injective : {A : Type 0} {x y : A} → some x ≡ some y → x ≡ y
    some-injective e = cc
drop-join (q ∷ ps) (suc k) p e =
    let (rest, same) = drop-join ps k p e in (rest, drop_past q (offset ps k) (join ps) ∙ same)
  where
    drop_past : (xs : Text) (n : ℕ) (ys : Text) → drop (length xs + n) (xs ++ ys) ≡ drop n ys
    drop_past [] n ys = ap (λ m. drop m ys) (omega arith)
    drop_past (x ∷ xs) n ys =
        let e : suc (length xs) + n ≡ suc (length xs + n) = omega arith in
        ap (λ m. drop m (x ∷ (xs ++ ys))) e ∙ drop_past xs n ys

-- A cut at the place of a piece is the piece.
pub slice-join :
    (ps : List Text) (k from to : ℕ) (p : Text)
    → get_elem? ps k ≡ some p
    → offset ps k ≡ from
    → from + length p ≡ to
    → slice from to (join ps) ≡ p
slice-join ps k from to p e f g =
    let (rest, same) = drop-join ps k p e in
    rw (← f, same) (take-append_length _ p rest (omega arith))
