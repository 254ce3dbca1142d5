-- ===== src/Helpers/Signature.antt =====
-- `unpackSignature` of zp-relayer/utils/helpers.ts: a compact signature (EIP-2098) unfolded.
use zeropool_relayer.Base.{
  ℕ, pos, ◌+◌, ◌/◌, ◌%◌, ◌^◌, ◌≡◌, Text, codes, ◌++◌, length, take, drop, ◌==◌, ltb, if◌then◌else◌,
  Outcome, ok, throws, error, Failure, Bool-cases, inl, inr, ==_iff, arith,
}
use zeropool_relayer.Helpers.Hex.{num_to_hex}
use zeropool_relayer.Numerals.{Numerals}

-- `S_MAX`; `S_MASK` is 2 ^ 255 - 1
abbrev pub s_max : ℕ
s_max = 0x7FFFFFFFFFFFFFFFFFFFFFFFFFFFFFFF5D576E7357A4501DDFE92F46681B20A0

-- The three parts put together; the last test of the source.
abbrev joined : Text → Text → Text → Outcome Text
joined r s v =
    if length (codes "0x" ++ (r ++ (s ++ v))) == 132
    then ok (codes "0x" ++ (r ++ (s ++ v)))
    else throws (error "Invalid resulting signature length")

-- The rest of the function, from the text r and the number vs: the parity in the top bit, s below it.
unfoldable pub unpacked : Numerals → Text → ℕ → Outcome Text
unpacked num r vs =
    if ltb s_max (vs % 2 ^ 255)
    then throws (error "Invalid signature 's' value")
    else joined r (num_to_hex num (pos (vs % 2 ^ 255)) 64)
        (num_to_hex num (pos (27 + vs / 2 ^ 255)) 2)

-- `unpackSignature`; `to_bn` is web3-utils' `toBN` of a text without the prefix 0x.
unfoldable pub unpack_signature : Numerals → (Text → ℕ) → Text → Outcome Text
unfolding unpacked
unpack_signature num to_bn packed =
    if length packed == 130
    then ok (codes "0x" ++ packed)
    else if length packed == 128
    then unpacked num (take 64 packed) (to_bn (drop 64 packed))
    else throws (error "Invalid packed signature length")

throws_ne_ok : (e : Failure) (s : Text) → throws e ≡ ok s → ⊥
throws_ne_ok e s h = cc

ok_injective : (s t : Text) → ok s ≡ ok t → s ≡ t
ok_injective s t h = cc

length-joined : (r s v sig : Text) → joined r s v ≡ ok sig → length sig ≡ 132
length-joined r s v sig h = elim (Bool-cases (length (codes "0x" ++ (r ++ (s ++ v))) == 132)) [
  | inl full ↦
      let e : ok (codes "0x" ++ (r ++ (s ++ v))) ≡ ok sig = rw full at h in
      rw (← ok_injective (codes "0x" ++ (r ++ (s ++ v))) sig e)
        ((==_iff (length (codes "0x" ++ (r ++ (s ++ v)))) 132).0 full)
  | inr short ↦ absurd (throws_ne_ok _ sig (rw short at h))
]

length-unpacked :
    (num : Numerals) (r : Text) (vs : ℕ) (sig : Text)
    → unpacked num r vs ≡ ok sig
    → length sig ≡ 132
unfolding unpacked
length-unpacked num r vs sig h = elim (Bool-cases (ltb s_max (vs % 2 ^ 255))) [
  | inl large ↦ absurd (throws_ne_ok _ sig (rw large at h))
  | inr fits ↦
      length-joined r (num_to_hex num (pos (vs % 2 ^ 255)) 64)
        (num_to_hex num (pos (27 + vs / 2 ^ 255)) 2) sig (rw fits at h)
]

-- A signature that is accepted is 132 characters long: 0x, r, s and v.
pub length-unpack_signature :
    (num : Numerals) (to_bn : Text → ℕ) (packed sig : Text)
    → unpack_signature num to_bn packed ≡ ok sig
    → length sig ≡ 132
unfolding unpack_signature
length-unpack_signature num to_bn packed sig h = elim (Bool-cases (length packed == 130)) [
  | inl whole ↦
      let e : ok (codes "0x" ++ packed) ≡ ok sig = rw whole at h in
      let same = ok_injective (codes "0x" ++ packed) sig e in
      let n = (==_iff (length packed) 130).0 whole in rw (← same) (omega (arith, n))
  | inr other ↦ elim (Bool-cases (length packed == 128)) [
    | inl compact ↦
        length-unpacked num (take 64 packed) (to_bn (drop 64 packed)) sig (rw (other, compact) at h)
    | inr neither ↦ absurd (throws_ne_ok _ sig (rw (other, neither) at h))
  ]
]
