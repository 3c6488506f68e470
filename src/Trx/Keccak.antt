-- ===== src/Trx/Keccak.antt =====
-- `make_keccak_instruction_data` of integration/tests/neon_evm/utils/eth_tx_utils.py.
use neon_tests.Prelude.{
  ℕ, ◌+◌, ◌/◌, ◌%◌, ◌<◌, ◌≡◌, ◌≢◌, refl, [], ◌∷◌, ◌++◌, arith, ◌&&◌, if◌then◌else◌, length, take,
  drop, get_elem?, some, Bool, false, lt→ltb, ap,
}
use neon_tests.Prelude.Int.{ℤ, pos, negsuc, add_ℕ, ltb_ℤ}
use neon_tests.Py.{Result, ok, err, ◌>>=◌, plain_exception, struct_error}
use neon_tests.Py.Bytes.{Bytes, from_little}
use neon_tests.Py.Struct.{pack_u8, pack_u16}

-- The chained comparison `255 < i < 0` is both comparisons.
pub bad_index : ℤ → Bool
bad_index i = ltb_ℤ (pos 255) i && ltb_ℤ i (pos 0)

pub keccak_fields : ℤ → ℤ → ℤ → ℤ → ℤ → Result Bytes
keccak_fields index msg_len eth_offset signature_offset message_offset = do
  count ← pack_u8 (pos 1)
  signature ← pack_u16 signature_offset
  index1 ← pack_u8 index
  address ← pack_u16 eth_offset
  index2 ← pack_u8 index
  message ← pack_u16 message_offset
  len ← pack_u16 msg_len
  index3 ← pack_u8 index
  ok (count ++ (signature ++ (index1 ++ (address ++ (index2 ++ (message ++ (len ++ index3)))))))

-- The address takes 20 bytes from `data_start` on, the signature the next 65.
pub make_keccak_instruction_data : ℤ → ℤ → ℤ → Result Bytes
unfolding bad_index keccak_fields
make_keccak_instruction_data index msg_len data_start =
    if bad_index index
    then err plain_exception
    else keccak_fields index msg_len data_start (add_ℕ data_start 20)
        (add_ℕ (add_ℕ data_start 20) 65)

-- A 16-bit field of the result.
abbrev pub u16_at : ℕ → Bytes → ℕ
u16_at k bs = from_little (take 2 (drop k bs))

bad_index-false : (i : ℤ) → bad_index i ≡ false
unfolding bad_index
bad_index-false (pos n) = ground arith
bad_index-false (negsuc n) = refl

-- For a byte as index, a length of 16 bits and a start of which the offsets fit 16 bits, the twelve
-- bytes name the one instruction three times and hold the offsets of the address, of the signature
-- behind it, of the message behind that, and the length of the message.
pub make_keccak_fields :
    (i m d : ℕ)
    → i < 256
    → m < 65536
    → d + 85 < 65536
    → (bs : Bytes) × (make_keccak_instruction_data (pos i) (pos m) (pos d) ≡ ok bs)
      × (length bs ≡ 12)
      × (u16_at 4 bs ≡ d)
      × (u16_at 1 bs ≡ d + 20)
      × (u16_at 7 bs ≡ d + 85)
      × (u16_at 9 bs ≡ m)
      × (get_elem? bs 3 ≡ some i)
      × (get_elem? bs 6 ≡ some i)
      × (get_elem? bs 11 ≡ some i)
unfolding make_keccak_instruction_data pack_u8 pack_u16 from_little
make_keccak_fields i m d hi hm hd = (
  1
      ∷ ((d + 20) % 256)
      ∷ ((d + 20) / 256)
      ∷ i
      ∷ (d % 256)
      ∷ (d / 256)
      ∷ i
      ∷ ((d + 20 + 65) % 256)
      ∷ ((d + 20 + 65) / 256)
      ∷ (m % 256)
      ∷ (m / 256)
      ∷ i
      ∷ [],
  rw (
    bad_index-false (pos i),
    lt→ltb (d + 20) 65536 (omega arith),
    lt→ltb i 256 hi,
    lt→ltb d 65536 (omega arith),
    lt→ltb (d + 20 + 65) 65536 (omega arith),
    lt→ltb m 65536 hm,
  ),
  refl,
  omega arith,
  omega arith,
  omega arith,
  omega arith,
  refl,
  refl,
  refl,
)

-- An index is out of range when it is no byte.
abbrev pub IsByteIndex : ℤ → Type 0
IsByteIndex (pos n) = n < 256
IsByteIndex (negsuc n) = ⊥

-- A call that returns or raises the error of `struct`.
abbrev IsPacking {ℓ} : {A : Type ℓ} → Result A → Type 0
IsPacking (ok a) = Unit
IsPacking (err e) = e ≡ struct_error

IsPacking-bind {ℓ κ} :
    {A : Type ℓ} {B : Type κ} (r : Result A) (f : A → Result B)
    → IsPacking r
    → ((a : A) → IsPacking (f a))
    → IsPacking (r >>= f)
IsPacking-bind (ok a) f h k = k a
IsPacking-bind (err e) f h k = h

bind-fails {ℓ κ} :
    {A : Type ℓ} {B : Type κ} (r : Result A) (f : A → Result B)
    → IsPacking r
    → ((a : A) → f a ≡ err struct_error)
    → (r >>= f) ≡ err struct_error
bind-fails (ok a) f h k = k a
bind-fails (err e) f h k = ap err h

IsPacking-ne {ℓ} : {A : Type ℓ} (r : Result A) → IsPacking r → r ≢ err plain_exception
IsPacking-ne (ok a) h = cc
IsPacking-ne (err e) h = cc

pack_u8-IsPacking : (n : ℤ) → IsPacking (pack_u8 n)
unfolding pack_u8
pack_u8-IsPacking (pos n) = ground arith
pack_u8-IsPacking (negsuc n) = refl

pack_u16-IsPacking : (n : ℤ) → IsPacking (pack_u16 n)
unfolding pack_u16
pack_u16-IsPacking (pos n) = ground arith
pack_u16-IsPacking (negsuc n) = refl

pack_u8-fails : (n : ℤ) → ¬ IsByteIndex n → pack_u8 n ≡ err struct_error
unfolding pack_u8
pack_u8-fails (pos n) h = ground arith
pack_u8-fails (negsuc n) h = refl

keccak_fields-IsPacking : (i m d s e : ℤ) → IsPacking (keccak_fields i m d s e)
unfolding keccak_fields
keccak_fields-IsPacking i m d s e = IsPacking-bind _ _ (pack_u8-IsPacking (pos 1)) λ _.
    IsPacking-bind _ _ (pack_u16-IsPacking s) λ _. IsPacking-bind _ _ (pack_u8-IsPacking i) λ _.
      IsPacking-bind _ _ (pack_u16-IsPacking d) λ _. IsPacking-bind _ _ (pack_u8-IsPacking i) λ _.
        IsPacking-bind _ _ (pack_u16-IsPacking e) λ _.
          IsPacking-bind _ _ (pack_u16-IsPacking m)
            λ _. IsPacking-bind _ _ (pack_u8-IsPacking i) λ _. tt

keccak_fields-fails : (i m d s e : ℤ) → ¬ IsByteIndex i → keccak_fields i m d s e ≡ err struct_error
unfolding keccak_fields
keccak_fields-fails i m d s e h =
    bind-fails _ _ (pack_u8-IsPacking (pos 1))
      λ _. bind-fails _ _ (pack_u16-IsPacking s) λ _. rw (pack_u8-fails i h)

-- An index that is no byte ends in the error of `struct`, and never in the exception of the guard on
-- the index.
pub make_keccak_out_of_range :
    (i m d : ℤ)
    → ¬ IsByteIndex i
    → (make_keccak_instruction_data i m d ≡ err struct_error)
      × (make_keccak_instruction_data i m d ≢ err plain_exception)
unfolding make_keccak_instruction_data
make_keccak_out_of_range i m d h =
    rw (bad_index-false i)
      (keccak_fields-fails i m d _ _ h, IsPacking-ne _ (keccak_fields-IsPacking i m d _ _))
