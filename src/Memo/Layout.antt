-- ===== src/Memo/Layout.antt =====
-- The prefix of a memo of the second version: its bytes in the order of the fields, read back, and
-- measured against the prefix that the relayer cuts off.
use native.Mathlib.Nat.{pow-suc}
use zeropool_relayer.Base.{
  ℕ, zero, suc, ◌+◌, ◌*◌, ◌/◌, ◌%◌, ◌^◌, ◌≤◌, ◌<◌, ◌≡◌, refl, List, [], ◌∷◌, ◌++◌, append_assoc,
  length, length-append, drop, take-append_length, drop-append_length, le→leb, ok, ◌>>=◌, arith,
}
use zeropool_relayer.Helpers.TxTypes.{
  TxType, deposit, transfer, withdrawal, permittable_deposit, tx_type_prefix_len_v2,
}
use zeropool_relayer.Memo.{
  get_address, big_endian, read_u64, Extra, nothing, withdraw_data, permit_data, TxDataProverV2,
  get_extra, get_tx_data_prover_v2,
}

-- n as k big-endian bytes.
unfoldable pub write_be : ℕ → ℕ → List ℕ
write_be zero n = []
write_be (suc k) n = write_be k (n / 256) ++ n % 256 ∷ []

pub length-write_be : (k n : ℕ) → length (write_be k n) ≡ k
unfolding write_be
length-write_be zero n = refl
length-write_be (suc k) n =
    omega
      (arith, length-append {0} (write_be k (n / 256)) (n % 256 ∷ []), length-write_be k (n / 256))

big_endian-append :
    (acc : ℕ) (xs ys : List ℕ) → big_endian acc (xs ++ ys) ≡ big_endian (big_endian acc xs) ys
unfolding big_endian
big_endian-append acc [] ys = refl
big_endian-append acc (x ∷ xs) ys = big_endian-append (acc * 256 + x) xs ys

big_endian-write_be : (k n : ℕ) → n < 256 ^ k → big_endian 0 (write_be k n) ≡ n
unfolding big_endian write_be
big_endian-write_be zero n h = omega arith
big_endian-write_be (suc k) n h =
    let fits : n / 256 < 256 ^ k = omega (arith, pow-suc 256 k) in
    rw
      (
        big_endian-append 0 (write_be k (n / 256)) (n % 256 ∷ []),
        big_endian-write_be k (n / 256) fits,
      )
      (omega arith)

-- The bytes that a client writes in front of the memo for each kind of transaction.
abbrev pub extra_bytes : Extra → List ℕ
extra_bytes nothing = []
extra_bytes (withdraw_data native_amount receiver) = write_be 8 native_amount ++ receiver
extra_bytes (permit_data deadline holder) = write_be 8 deadline ++ holder

abbrev pub prefix_bytes : TxDataProverV2 → List ℕ
prefix_bytes d =
    d.proxy_address
    ++ (d.prover_address
        ++ (write_be 8 d.transact_fee ++ (write_be 8 d.tree_update_fee ++ extra_bytes d.extra)))

-- The extra fields belong to the type, and each field has its width.
abbrev pub IsExtraOf : TxType → Extra → Type 0
IsExtraOf deposit nothing = Unit {0}
IsExtraOf transfer nothing = Unit {0}
IsExtraOf withdrawal (withdraw_data native_amount receiver) =
    (native_amount < 2 ^ 64) × (length receiver ≡ 20)
IsExtraOf permittable_deposit (permit_data deadline holder) =
    (deadline < 2 ^ 64) × (length holder ≡ 20)
IsExtraOf _ _ = ⊥

pub record IsWellFormed (tx_type : TxType) (d : TxDataProverV2) : Type 0 where
  pub proxy : length d.proxy_address ≡ 20
  pub prover : length d.prover_address ≡ 20
  pub fee : d.transact_fee < 2 ^ 64
  pub tree_fee : d.tree_update_fee < 2 ^ 64
  pub extra : IsExtraOf tx_type d.extra

-- Reading at an offset that the first part of the buffer fills.
module _ (n : ℕ) (front : List ℕ) (width : length front ≡ n) where
  drop_front : (rest : List ℕ) → drop n (front ++ rest) ≡ rest
  drop_front rest = drop-append_length n front rest width

  get_address_at : (a rest : List ℕ) → length a ≡ 20 → get_address (front ++ (a ++ rest)) n ≡ a
  unfolding get_address
  get_address_at a rest h = rw drop_front (take-append_length 20 a rest h)

  read_u64_at :
      (v : ℕ) (rest : List ℕ) → v < 2 ^ 64 → read_u64 (front ++ (write_be 8 v ++ rest)) n ≡ ok v
  unfolding read_u64
  read_u64_at v rest h =
      let fits : n + 8 ≤ length (front ++ (write_be 8 v ++ rest)) = omega (
        arith,
        length-append {0} front (write_be 8 v ++ rest),
        length-append {0} (write_be 8 v) rest,
        length-write_be 8 v,
      ) in
      rw (
        le→leb (n + 8) (length (front ++ (write_be 8 v ++ rest))) fits,
        drop_front,
        take-append_length 8 (write_be 8 v) rest (length-write_be 8 v),
        big_endian-write_be 8 v h,
      )

-- A number and an address in a row, as the extra fields are.
extra_at :
    (front body : List ℕ) (v : ℕ) (a : List ℕ) (make : ℕ → List ℕ → Extra)
    → length front ≡ 56
    → v < 2 ^ 64
    → length a ≡ 20
    → let m = front ++ ((write_be 8 v ++ a) ++ body) in
      (read_u64 m 56 >>= λ n. ok (make n (get_address m 64))) ≡ ok (make v a)
unfolding ◌>>=◌
extra_at front body v a make w h k =
    let split : front ++ ((write_be 8 v ++ a) ++ body) ≡ (front ++ write_be 8 v) ++ (a ++ body) =
      simp append_assoc in
    let whole : front ++ ((write_be 8 v ++ a) ++ body) ≡ front ++ (write_be 8 v ++ (a ++ body)) =
      simp append_assoc in
    let width : length (front ++ write_be 8 v) ≡ 64 =
      omega (arith, length-append {0} front (write_be 8 v), length-write_be 8 v) in
    let number : read_u64 (front ++ ((write_be 8 v ++ a) ++ body)) 56 ≡ ok v =
      rw whole (read_u64_at 56 front w v (a ++ body) h) in
    let address : get_address (front ++ ((write_be 8 v ++ a) ++ body)) 64 ≡ a =
      rw split (get_address_at 64 (front ++ write_be 8 v) width a body k) in
    rw (number, address)

-- The extra fields at offset 56, behind a front that fills it.
get_extra_at :
    (front body : List ℕ) (t : TxType) (e : Extra)
    → length front ≡ 56
    → IsExtraOf t e
    → get_extra (front ++ (extra_bytes e ++ body)) 56 t ≡ ok e
unfolding get_extra ◌>>=◌
get_extra_at front body deposit nothing w h = refl
get_extra_at front body deposit (withdraw_data n r) w h = absurd h
get_extra_at front body deposit (permit_data n r) w h = absurd h
get_extra_at front body transfer nothing w h = refl
get_extra_at front body transfer (withdraw_data n r) w h = absurd h
get_extra_at front body transfer (permit_data n r) w h = absurd h
get_extra_at front body withdrawal nothing w h = absurd h
get_extra_at front body withdrawal (permit_data n r) w h = absurd h
get_extra_at front body withdrawal (withdraw_data n r) w h =
    extra_at front body n r withdraw_data w h.0 h.1
get_extra_at front body permittable_deposit nothing w h = absurd h
get_extra_at front body permittable_deposit (withdraw_data n r) w h = absurd h
get_extra_at front body permittable_deposit (permit_data n r) w h =
    extra_at front body n r permit_data w h.0 h.1

-- Twice the length of the extra fields is what their type adds to 112, less 4.
length-extra_bytes :
    (t : TxType) (e : Extra)
    → IsExtraOf t e
    → (56 + length (extra_bytes e)) * 2 + 4 ≡ tx_type_prefix_len_v2 t
length-extra_bytes deposit nothing h = refl
length-extra_bytes transfer nothing h = refl
length-extra_bytes withdrawal (withdraw_data n r) h =
    omega (arith, length-append {0} (write_be 8 n) r, length-write_be 8 n)
length-extra_bytes permittable_deposit (permit_data n r) h =
    omega (arith, length-append {0} (write_be 8 n) r, length-write_be 8 n)
length-extra_bytes t e h = absurd h

-- The relayer cuts the fields that the parser reads, at two hexadecimal digits for a byte, and two
-- bytes more.
pub length-prefix_bytes :
    (t : TxType) (d : TxDataProverV2)
    → IsWellFormed t d
    → length (prefix_bytes d) * 2 + 4 ≡ tx_type_prefix_len_v2 t
length-prefix_bytes t d h = omega (
  arith,
  length-append {0} d.proxy_address (
      d.prover_address
      ++ (write_be 8 d.transact_fee ++ (write_be 8 d.tree_update_fee ++ extra_bytes d.extra))),
  length-append {0} d.prover_address
      (write_be 8 d.transact_fee ++ (write_be 8 d.tree_update_fee ++ extra_bytes d.extra)),
  length-append {0} (write_be 8 d.transact_fee)
      (write_be 8 d.tree_update_fee ++ extra_bytes d.extra),
  length-append {0} (write_be 8 d.tree_update_fee) (extra_bytes d.extra),
  length-write_be 8 d.transact_fee,
  length-write_be 8 d.tree_update_fee,
  length-extra_bytes t d.extra h.extra,
)

-- What is written in front of a memo is what `getTxDataProverV2` reads, whatever follows.
pub get_tx_data_prover_v2-prefix_bytes :
    (t : TxType) (d : TxDataProverV2) (body : List ℕ)
    → IsWellFormed t d
    → get_tx_data_prover_v2 (prefix_bytes d ++ body) t ≡ ok d
unfolding get_tx_data_prover_v2 ◌>>=◌
get_tx_data_prover_v2-prefix_bytes t d body h =
    let f20 = d.proxy_address in
    let f40 = f20 ++ d.prover_address in
    let f48 = f40 ++ write_be 8 d.transact_fee in
    let f56 = f48 ++ write_be 8 d.tree_update_fee in
    let w40 : length f40 ≡ 40 =
      omega (arith, length-append {0} d.proxy_address d.prover_address, h.proxy, h.prover) in
    let w48 : length f48 ≡ 48 = omega (
      arith,
      length-append {0} f40 (write_be 8 d.transact_fee),
      length-write_be 8 d.transact_fee,
      w40,
    ) in
    let w56 : length f56 ≡ 56 = omega (
      arith,
      length-append {0} f48 (write_be 8 d.tree_update_fee),
      length-write_be 8 d.tree_update_fee,
      w48,
    ) in
    let m = prefix_bytes d ++ body in
    let x = extra_bytes d.extra ++ body in
    let tree = write_be 8 d.tree_update_fee ++ x in
    let e0 : m ≡ f20 ++ (d.prover_address ++ (write_be 8 d.transact_fee ++ tree)) =
      simp append_assoc in
    let e40 : m ≡ f40 ++ (write_be 8 d.transact_fee ++ tree) = simp append_assoc in
    let e48 : m ≡ f48 ++ tree = simp append_assoc in
    let e56 : m ≡ f56 ++ x = simp append_assoc in
    let proxy : get_address m 0 ≡ f20 = rw e0 (
      get_address_at 0 [] refl f20 (d.prover_address ++ (write_be 8 d.transact_fee ++ tree))
        h.proxy) in
    let prover : get_address m 20 ≡ d.prover_address = rw e0 (
      get_address_at 20 f20 h.proxy d.prover_address (write_be 8 d.transact_fee ++ tree)
        h.prover) in
    let fee : read_u64 m 40 ≡ ok d.transact_fee =
      rw e40 (read_u64_at 40 f40 w40 d.transact_fee tree h.fee) in
    let tree_fee : read_u64 m 48 ≡ ok d.tree_update_fee =
      rw e48 (read_u64_at 48 f48 w48 d.tree_update_fee x h.tree_fee) in
    let extra : get_extra m 56 t ≡ ok d.extra =
      rw e56 (get_extra_at f56 body t d.extra w56 h.extra) in
    rw (fee, tree_fee, extra, proxy, prover)
