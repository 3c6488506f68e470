-- ===== src/Rlp.antt =====
-- `pack` and `unpack` of integration/tests/neon_evm/utils/eth_tx_utils.py: Python values to RLP
-- bytes and back.
pub mod Decoded
pub mod Headers
pub mod Returns
pub mod RoundTrip
pub mod Total
mod Tests
use neon_tests.Prelude.{
  ℕ, zero, suc, ◌+◌, ◌-◌, ◌*◌, [], ◌∷◌, ◌++◌, ltb, leb, ◌==◌, if◌then◌else◌, length, take, drop,
}
use neon_tests.Prelude.Int.{ℤ, pos, negsuc}
use neon_tests.Prelude.Text.{Text}
use neon_tests.Py.{
  Result, ok, err, ◌>>=◌, overflow_error, index_error, plain_exception, out_of_fuel,
}
use neon_tests.Py.Bytes.{Bytes, to_bytes_big, from_bytes_big, byte_length}
use neon_tests.Py.Unicode.{encode_utf8}

-- The Python values that `pack` tells apart. `other` is a value of any other type.
mutual
  pub data Item : Type 0 where
    nothing : Item
    str : Text → Item
    bytes : Bytes → Item
    int : ℤ → Item
    list : Items → Item
    tuple : Items → Item
    other : Item

  pub data Items : Type 0 where
    nil : Items
    cons : Item → Items → Items

-- `(base + lLen).to_bytes(1, "big") + l.to_bytes(lLen, "big") + data`, with `l = len(data)`.
pub pack_long : ℕ → Bytes → Result Bytes
pack_long base content = do
  let size = byte_length (length content)
  head ← to_bytes_big 1 (base + size)
  len ← to_bytes_big size (length content)
  ok (head ++ (len ++ content))

pub pack_bytes : Bytes → Result Bytes
unfolding pack_long
pack_bytes content =
    if leb (length content) 55
    then (do head ← to_bytes_big 1 (length content + 0x80); ok (head ++ content))
    else pack_long 0xB7 content

-- `to_bytes` of a negative number raises `OverflowError`.
pub pack_int : ℤ → Result Bytes
pack_int (negsuc n) = err overflow_error
pack_int (pos n) = if ltb n 0x80 then to_bytes_big 1 n else (do
  head ← to_bytes_big 1 (byte_length n + 0x80)
  digits ← to_bytes_big (byte_length n) n
  ok (head ++ digits))

-- The header before the packed elements of a list that is not empty.
pub pack_content : Bytes → Result Bytes
unfolding pack_long
pack_content res =
    if leb (length res) 55
    then (do head ← to_bytes_big 1 (length res + 0xC0); ok (head ++ res))
    else pack_long 0xF7 res

unfoldable mutual
  unfolding pack_bytes pack_int pack_content

  pub pack : Item → Result Bytes
  pack nothing = to_bytes_big 1 0x80
  pack (str s) = encode_utf8 s >>= pack_bytes
  pack (bytes b) = pack_bytes b
  pack (int n) = pack_int n
  pack (list nil) = to_bytes_big 1 0xC0
  pack (list (cons x xs)) = do b ← pack x; bs ← pack_items xs; pack_content (b ++ bs)
  pack (tuple nil) = to_bytes_big 1 0xC0
  pack (tuple (cons x xs)) = do b ← pack x; bs ← pack_items xs; pack_content (b ++ bs)
  pack other = err plain_exception

  -- `for d in data: res += pack(d)`
  pub pack_items : Items → Result Bytes
  pack_items nil = ok []
  pack_items (cons x xs) = do b ← pack x; bs ← pack_items xs; ok (b ++ bs)

-- A slice that reaches past the end is cut short, without an error. Each call takes a unit of fuel.
unfoldable mutual
  pub unpack : ℕ → Bytes → Result (Item × Bytes)
  unpack zero content = err out_of_fuel
  unpack (suc f) [] = err index_error
  unpack (suc f) (ch ∷ rest) =
      let size = ch - 0xB7 in
      let l = from_bytes_big (take size rest) in
      let list_size = ch - 0xF7 in
      let list_l = from_bytes_big (take list_size rest) in
      let short_list = (do
        lst ← unpack_items f (take (ch - 0xC0) rest)
        ok (list lst, drop (ch - 0xC0) rest)) in
      let long_list = (do
        lst ← unpack_items f (take list_l (drop list_size rest))
        ok (list lst, drop list_l (drop list_size rest))) in
      if leb ch 0x7F
      then ok (int (pos ch), rest)
      else if ch == 0x80
      then ok (nothing, rest)
      else if leb ch 0xB7
      then ok (bytes (take (ch - 0x80) rest), drop (ch - 0x80) rest)
      else if leb ch 0xBF
      then ok (bytes (take l (drop size rest)), drop l (drop size rest))
      else if ch == 0xC0
      then ok (tuple nil, rest)
      else if leb ch 0xF7
      then short_list
      else long_list

  -- `while len(sub): (item, sub) = unpack(sub); lst.append(item)`
  pub unpack_items : ℕ → Bytes → Result Items
  unpack_items zero sub = err out_of_fuel
  unpack_items (suc f) [] = ok nil
  unpack_items (suc f) (b ∷ bs) = do
    (item, sub) ← unpack f (b ∷ bs)
    lst ← unpack_items f sub
    ok (cons item lst)

-- Two units of fuel for each byte and one more are enough.
pub unpack_data : Bytes → Result (Item × Bytes)
unfolding unpack
unpack_data content = unpack (2 * length content + 1) content
