-- ===== src/Trx/RoundTrip.antt =====
-- What `Trx.__str__` wrote, `Trx.from_string` reads back.
use neon_tests.Prelude.{
  zero, suc, ◌+◌, ◌^◌, ◌<◌, ◌≤◌, ◌≡◌, refl, ap, Option, none, some, arith, [], ◌∷◌, append-nil,
  length, reverse, inl, inr, ltb, Bool-cases,
}
use neon_tests.Prelude.Int.{ℤ, pos, negsuc}
use neon_tests.Py.{ok}
use neon_tests.Py.Bytes.{Bytes, to_little, byte_length}
use neon_tests.Py.Bytes.Laws.{
  from_bytes_big-reverse, lt-pow-byte_length, to_bytes_big-ok, length-reverse-to_little,
}
use neon_tests.Rlp.{Item, nothing, str, bytes, int, list, tuple, other, unpack_data}
use neon_tests.Rlp.Decoded.{decoded}
use neon_tests.Rlp.Headers.{decoded_bytes_pos}
use neon_tests.Rlp.Returns.{Packable, weight, pack-unpack_data}
use neon_tests.Trx.{
  Trx, elements, get_int, items_of, list_of, item_of, from_fields, from_string, word, raw_fields,
  raw,
}

-- A number that is absent, or takes at most 55 bytes.
abbrev pub IsField : Option ℤ → Type 0
IsField none = Unit
IsField (some (pos n)) = n < 256 ^ 55
IsField (some (negsuc n)) = ⊥

-- Absent, or a byte string that is not empty.
abbrev pub IsContent : Item → Type 0
IsContent nothing = Unit
IsContent (bytes (b ∷ bs)) = Unit
IsContent _ = ⊥

-- Absent, or a number from 1 that fits 32 bytes.
abbrev pub IsWord : Option ℤ → Type 0
IsWord none = Unit
IsWord (some (pos zero)) = ⊥
IsWord (some (pos (suc n))) = suc n < 256 ^ 32
IsWord (some (negsuc n)) = ⊥

pub record IsWire (t : Trx) : Type 0 where
  pub nonce : IsField t.nonce
  pub gas_price : IsField t.gas_price
  pub gas_limit : IsField t.gas_limit
  pub to_address : IsContent t.to_address
  pub value : IsField t.value
  pub call_data : IsContent t.call_data
  pub v : IsField t.v
  pub r : IsWord t.r
  pub s : IsWord t.s
  pub size : weight t.to_address + weight t.call_data + 1000 < 256 ^ 8

get_int-decoded : (n : Option ℤ) → IsField n → get_int (decoded (item_of n)) ≡ ok n
unfolding get_int decoded
get_int-decoded none h = refl
get_int-decoded (some (negsuc n)) h = absurd h
get_int-decoded (some (pos n)) h = elim (Bool-cases (ltb n 0x80)) [
  | inl small ↦ rw small
  | inr large ↦ rw large (
      ap (λ m. ok (some (pos m))) (from_bytes_big-reverse (byte_length n) n (lt-pow-byte_length n)))
]

decoded-IsContent : (x : Item) → IsContent x → decoded x ≡ x
unfolding decoded
decoded-IsContent nothing h = refl
decoded-IsContent (bytes (b ∷ bs)) h = refl
decoded-IsContent (bytes []) h = absurd h
decoded-IsContent (str s) h = absurd h
decoded-IsContent (int n) h = absurd h
decoded-IsContent (list xs) h = absurd h
decoded-IsContent (tuple xs) h = absurd h
decoded-IsContent other h = absurd h

-- What stands for `r` and `s` in the packed tuple.
abbrev IsWordItem : Option ℤ → Item → Type 0
IsWordItem x w = (word x ≡ ok w) × Packable w × (weight w ≤ 41) × (get_int (decoded w) ≡ ok x)

word-IsWordItem : (x : Option ℤ) → IsWord x → (w : Item) × IsWordItem x w
unfolding word decoded get_int
word-IsWordItem none h = (nothing, (refl, tt, omega arith, refl))
word-IsWordItem (some (pos zero)) h = absurd h
word-IsWordItem (some (negsuc n)) h = absurd h
word-IsWordItem (some (pos (suc n))) h =
    let digits : Bytes = reverse (to_little 32 (suc n)) in
    let len : length digits ≡ 32 = length-reverse-to_little 32 (suc n) in
    (
      bytes digits,
      (
        rw (to_bytes_big-ok 32 (suc n) h),
        tt,
        omega (arith, len),
        rw (decoded_bytes_pos digits (omega (arith, len)))
            (ap (λ m. ok (some (pos m))) (from_bytes_big-reverse 32 (suc n) h)),
      ),
    )

field-Packable : (n : Option ℤ) → IsField n → Packable (item_of n) × (weight (item_of n) ≤ 56)
field-Packable none h = omega arith
field-Packable (some (pos n)) h = (h, omega arith)
field-Packable (some (negsuc n)) h = absurd h

content-Packable : (x : Item) → IsContent x → Packable x
content-Packable nothing h = tt
content-Packable (bytes (b ∷ bs)) h = tt
content-Packable (bytes []) h = absurd h
content-Packable (str s) h = absurd h
content-Packable (int n) h = absurd h
content-Packable (list xs) h = absurd h
content-Packable (tuple xs) h = absurd h
content-Packable other h = absurd h

module _ (t : Trx) (w : IsWire t) (r s : Item) (wr : IsWordItem t.r r) (ws : IsWordItem t.s s) where
  raw_fields-Packable : Packable (raw_fields t r s) × (weight (raw_fields t r s) < 256 ^ 8)
  unfolding raw_fields
  raw_fields-Packable = (
    (
      (field-Packable t.nonce w.nonce).0,
      (
        (field-Packable t.gas_price w.gas_price).0,
        (
          (field-Packable t.gas_limit w.gas_limit).0,
          (
            content-Packable t.to_address w.to_address,
            (
              (field-Packable t.value w.value).0,
              (
                content-Packable t.call_data w.call_data,
                ((field-Packable t.v w.v).0, (wr.1, (ws.1, tt))),
              ),
            ),
          ),
        ),
      ),
    ),
    omega (
      arith,
      w.size,
      wr.2,
      ws.2,
      (field-Packable t.nonce w.nonce).1,
      (field-Packable t.gas_price w.gas_price).1,
      (field-Packable t.gas_limit w.gas_limit).1,
      (field-Packable t.value w.value).1,
      (field-Packable t.v w.v).1,
    ),
  )

  -- The decoded tuple yields the fields again.
  from_fields-raw :
      from_fields (
        list_of (
          items_of (
            decoded (item_of t.nonce)
            ∷ decoded (item_of t.gas_price)
            ∷ decoded (item_of t.gas_limit)
            ∷ decoded t.to_address
            ∷ decoded (item_of t.value)
            ∷ decoded t.call_data
            ∷ decoded (item_of t.v)
            ∷ decoded r
            ∷ decoded s
            ∷ [])))
      ≡ ok t
  unfolding from_fields list_of items_of
  from_fields-raw = rw (
    get_int-decoded t.nonce w.nonce,
    get_int-decoded t.gas_price w.gas_price,
    get_int-decoded t.gas_limit w.gas_limit,
    get_int-decoded t.value w.value,
    get_int-decoded t.v w.v,
    wr.3,
    ws.3,
    decoded-IsContent t.to_address w.to_address,
    decoded-IsContent t.call_data w.call_data,
  )

  from_string-packed :
      (bs : Bytes) → unpack_data bs ≡ ok (decoded (raw_fields t r s), []) → from_string bs ≡ ok t
  unfolding from_string raw_fields decoded
  from_string-packed bs e = rw e (unfold elements items_of in from_fields-raw)

-- A transaction whose numbers are absent or take at most 55 bytes, whose address and data are
-- absent or not empty and of a bounded size, and whose `r` and `s` are absent or from 1 below 2 ^
-- 256, is written, and reading it gives it back.
pub from_string-raw :
    (t : Trx) → IsWire t → (bs : Bytes) × (raw t ≡ ok bs) × (from_string bs ≡ ok t)
unfolding raw
from_string-raw t w =
    let (r, wr) = word-IsWordItem t.r w.r in
    let (s, ws) = word-IsWordItem t.s w.s in
    let (p, small) = raw_fields-Packable t w r s wr ws in
    let (bs, e, read) = pack-unpack_data (raw_fields t r s) p small [] in
    (bs, rw (wr.0, ws.0) e, from_string-packed t w r s wr ws bs (rw append-nil at read))
