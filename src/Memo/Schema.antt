-- ===== src/Memo/Schema.antt =====
-- The body of a memo: the sizes in `clientBorshSchema` and the note hashes that `decodeMemo` cuts.
use zeropool_relayer.Base.{
  ℕ, zero, suc, ◌+◌, ◌-◌, ◌*◌, ◌≤◌, ◌≡◌, refl, ap, List, [], ◌∷◌, ◌++◌, length, length-append,
  length-take, length-drop, length-replicate, take, drop, replicate, All, All-append, arith,
}

abbrev pub u256_size : ℕ
u256_size = 32

abbrev poly_1305_tag_size : ℕ
poly_1305_tag_size = 16

abbrev account_size : ℕ
account_size = 70

abbrev note_size : ℕ
note_size = 60

abbrev zero_note_hash : List ℕ
zero_note_hash =
    205 ∷ 67 ∷ 21 ∷ 69 ∷ 218 ∷ 80 ∷ 86 ∷ 210 ∷ 193 ∷ 254 ∷ 80 ∷ 77 ∷ 140 ∷ 200 ∷ 120 ∷ 159 ∷ 225
    ∷ 78 ∷ 91 ∷ 230 ∷ 207 ∷ 158 ∷ 63 ∷ 231 ∷ 197 ∷ 180 ∷ 251 ∷ 16 ∷ 82 ∷ 219 ∷ 170 ∷ 14 ∷ []

-- The fields that the loop adds for each note, by their sizes in bytes.
unfoldable pub note_fields : ℕ → List ℕ
note_fields zero = []
note_fields (suc n) = u256_size ∷ (note_size + poly_1305_tag_size) ∷ note_fields n

-- `clientBorshSchema`: the sizes of the fields, in order
unfoldable pub client_borsh_schema : ℕ → List ℕ
unfolding note_fields
client_borsh_schema num_notes =
    u256_size
    ∷ (num_notes * u256_size)
    ∷ u256_size
    ∷ ((num_notes + 1) * u256_size + poly_1305_tag_size)
    ∷ (account_size + poly_1305_tag_size)
    ∷ note_fields num_notes

-- The first loop of `getNoteHashes`, from note i on.
unfoldable pub note_hashes_from : List ℕ → ℕ → ℕ → List (List ℕ)
note_hashes_from raw i zero = []
note_hashes_from raw i (suc n) =
    take u256_size (drop (i * u256_size) raw) ∷ note_hashes_from raw (i + 1) n

-- `getNoteHashes`
unfoldable pub get_note_hashes : List ℕ → ℕ → ℕ → List (List ℕ)
unfolding note_hashes_from
get_note_hashes raw num max_notes =
    note_hashes_from raw 0 num ++ replicate (max_notes - num) zero_note_hash

abbrev sum : List ℕ → ℕ
sum [] = 0
sum (x ∷ xs) = x + sum xs

sum-note_fields : (n : ℕ) → sum (note_fields n) ≡ n * 108
unfolding note_fields
sum-note_fields zero = omega arith
sum-note_fields (suc n) = omega (arith, sum-note_fields n)

-- A memo with n notes behind its four bytes of count is 198 + 172 * n bytes long.
pub sum-client_borsh_schema : (n : ℕ) → sum (client_borsh_schema n) ≡ 198 + 172 * n
unfolding client_borsh_schema
sum-client_borsh_schema n = omega (arith, sum-note_fields n)

length-note_hashes_from : (raw : List ℕ) (i n : ℕ) → length (note_hashes_from raw i n) ≡ n
unfolding note_hashes_from
length-note_hashes_from raw i zero = refl
length-note_hashes_from raw i (suc n) = ap suc (length-note_hashes_from raw (i + 1) n)

note_hashes_from_size :
    (raw : List ℕ) (i n : ℕ)
    → (i + n) * 32 ≤ length raw
    → All (λ h. length h ≡ 32) (note_hashes_from raw i n)
unfolding note_hashes_from
note_hashes_from_size raw i zero h = tt
note_hashes_from_size raw i (suc n) h = (
  omega (arith, length-take {A = ℕ} 32 (drop (i * 32) raw), length-drop {A = ℕ} (i * 32) raw),
  note_hashes_from_size raw (i + 1) n (omega arith),
)

replicate_size : (n : ℕ) → All (λ h. length h ≡ 32) (replicate n zero_note_hash)
replicate_size zero = tt
replicate_size (suc n) = (refl, replicate_size n)

-- A memo whose raw hashes fill its notes is decoded to exactly `max_notes` hashes of 32 bytes each.
pub get_note_hashes_lem :
    (raw : List ℕ) (num max_notes : ℕ)
    → num ≤ max_notes
    → num * 32 ≤ length raw
    → (length (get_note_hashes raw num max_notes) ≡ max_notes)
      × All (λ h. length h ≡ 32) (get_note_hashes raw num max_notes)
unfolding get_note_hashes
get_note_hashes_lem raw num max_notes h k = (
  omega (
    arith,
    length-append {0} (note_hashes_from raw 0 num) (replicate (max_notes - num) zero_note_hash),
    length-note_hashes_from raw 0 num,
    length-replicate {0} (max_notes - num) zero_note_hash,
  ),
  All-append (λ h. length h ≡ 32) (note_hashes_from raw 0 num)
      (replicate (max_notes - num) zero_note_hash) (note_hashes_from_size raw 0 num (omega arith))
      (replicate_size (max_notes - num)),
)
