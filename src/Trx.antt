-- ===== src/Trx.antt =====
-- `class Trx`, `get_int` and `make_keccak_instruction_data` of
-- integration/tests/neon_evm/utils/eth_tx_utils.py.
pub mod ChainId
pub mod RoundTrip
pub mod Keccak
mod Tests
use neon_tests.Prelude.{ℕ, zero, suc, ◌+◌, ◌/◌, List, [], ◌∷◌, Option, none, some, map}
use neon_tests.Prelude.Int.{ℤ, pos, negsuc, sub_ℕ}
use neon_tests.Prelude.Text.{Text}
use neon_tests.Py.{Result, ok, err, ◌>>=◌, overflow_error, type_error, value_error, plain_exception}
use neon_tests.Py.Bytes.{Bytes, to_bytes_big, from_bytes_big}
use neon_tests.Py.Hex.{to_hex}
use neon_tests.Rlp.{
  Item, Items, nothing, str, bytes, int, list, tuple, other, nil, cons, pack, unpack_data,
}

pub record Trx : Type 0 where
  pub nonce : Option ℤ
  pub gas_price : Option ℤ
  pub gas_limit : Option ℤ
  pub to_address : Item
  pub value : Option ℤ
  pub call_data : Item
  pub v : Option ℤ
  pub r : Option ℤ
  pub s : Option ℤ

pub get_int : Item → Result (Option ℤ)
get_int (int n) = ok (some n)
get_int (bytes b) = ok (some (pos (from_bytes_big b)))
get_int nothing = ok none
get_int _ = err plain_exception

pub items_of : List Item → Items
items_of [] = nil
items_of (x ∷ xs) = cons x (items_of xs)

pub list_of : Items → List Item
list_of nil = []
list_of (cons x xs) = x ∷ list_of xs

-- What `(a, b, …) = unpacked` iterates over: a byte string yields its bytes as numbers.
pub elements : Item → Result (List Item)
unfolding list_of
elements (list xs) = ok (list_of xs)
elements (tuple xs) = ok (list_of xs)
elements (bytes b) = ok (map (λ n. int (pos n)) b)
elements (str s) = ok (map (λ n. str (n ∷ [])) s)
elements _ = err type_error

-- Exactly nine values, or `ValueError`.
pub from_fields : List Item → Result Trx
unfolding get_int
from_fields (nonce ∷ price ∷ limit ∷ to ∷ value ∷ call ∷ v ∷ r ∷ s ∷ []) = do
  nonce' ← get_int nonce
  price' ← get_int price
  limit' ← get_int limit
  value' ← get_int value
  v' ← get_int v
  r' ← get_int r
  s' ← get_int s
  ok (record {
    nonce = nonce';
    gas_price = price';
    gas_limit = limit';
    to_address = to;
    value = value';
    call_data = call;
    v = v';
    r = r';
    s = s';
  })
from_fields _ = err value_error

-- `Trx.from_string`
pub from_string : Bytes → Result Trx
unfolding elements from_fields
from_string content = do
  (unpacked, rest) ← unpack_data content
  fields ← elements unpacked
  from_fields fields

abbrev pub item_of : Option ℤ → Item
item_of none = nothing
item_of (some n) = int n

-- `(v - 1) // 2 - 17`, rounded down.
pub chain_id_of : ℤ → ℤ
chain_id_of (pos zero) = negsuc 17
chain_id_of (pos (suc n)) = sub_ℕ (n / 2) 17
chain_id_of (negsuc n) = negsuc ((n + 3) / 2 + 16)

-- `Trx.chain_id`
pub chain_id : Trx → Result ℤ
unfolding chain_id_of
chain_id t = elim t.v [ none ↦ err type_error | some v ↦ ok (chain_id_of v) ]

-- `x.to_bytes(32, "big") if x else None`
pub word : Option ℤ → Result Item
word none = ok nothing
word (some (pos zero)) = ok nothing
word (some (pos (suc n))) = do b ← to_bytes_big 32 (suc n); ok (bytes b)
word (some (negsuc n)) = err overflow_error

-- The nine values that `__str__` packs.
pub raw_fields : Trx → Item → Item → Item
unfolding items_of
raw_fields t r s = tuple (
    items_of (
      item_of t.nonce
      ∷ item_of t.gas_price
      ∷ item_of t.gas_limit
      ∷ t.to_address
      ∷ item_of t.value
      ∷ t.call_data
      ∷ item_of t.v
      ∷ r
      ∷ s
      ∷ []))

pub raw : Trx → Result Bytes
unfolding word raw_fields
raw t = do r ← word t.r; s ← word t.s; pack (raw_fields t r s)

-- `Trx.__str__`
unfoldable pub to_string : Trx → Result Text
unfolding raw
to_string t = do b ← raw t; ok (to_hex b)

-- `chain_id or self.chain_id()`
pub chain_or : Option ℤ → Trx → Result ℤ
unfolding chain_id
chain_or (some (pos (suc n))) t = ok (pos (suc n))
chain_or (some (negsuc n)) t = ok (negsuc n)
chain_or _ t = chain_id t

pub msg_fields : Trx → ℤ → Item
unfolding items_of
msg_fields t chain = tuple (
    items_of (
      item_of t.nonce
      ∷ item_of t.gas_price
      ∷ item_of t.gas_limit
      ∷ t.to_address
      ∷ item_of t.value
      ∷ t.call_data
      ∷ int chain
      ∷ nothing
      ∷ nothing
      ∷ []))

-- `Trx.get_msg`
pub get_msg : Trx → Option ℤ → Result Bytes
unfolding chain_or msg_fields
get_msg t chain = do c ← chain_or chain t; pack (msg_fields t c)

-- `Trx.hash`, with the digest of the cryptographic library as a parameter.
pub hash : (Bytes → Bytes) → Trx → Option ℤ → Result Bytes
unfolding chain_or msg_fields
hash keccak t chain = do c ← chain_or chain t; trx ← pack (msg_fields t c); ok (keccak trx)
