-- ===== src/Rlp/Tests.antt =====
-- The theorems on RLP at concrete values.
use neon_tests.Prelude.{◌≡◌, [], ◌∷◌, ◌++◌, arith}
use neon_tests.Prelude.Int.{pos}
use neon_tests.Py.{ok}
use neon_tests.Py.Bytes.{Bytes}
use neon_tests.Rlp.{Item, bytes, int, list, nil, cons, pack, unpack_data}
use neon_tests.Rlp.Decoded.{decoded}
use neon_tests.Rlp.Returns.{pack-unpack_data}
use neon_tests.Rlp.Total.{Shrinks, unpack_data-Shrinks}

-- A byte string, a number of two bytes and an empty list.
abbrev sample : Item
sample = list (cons (bytes (0x83 ∷ 1 ∷ [])) (cons (int (pos 1000)) (cons (list nil) nil)))

pack-unpack_data_example :
    (bs : Bytes) × (pack sample ≡ ok bs)
    × (unpack_data (bs ++ 7 ∷ []) ≡ ok (decoded sample, 7 ∷ []))
pack-unpack_data_example =
    pack-unpack_data sample (tt, (omega arith, (tt, tt))) (omega arith) (7 ∷ [])

unpack_data-Shrinks_example : Shrinks 3 (unpack_data (0xC2 ∷ 0x05 ∷ 0x80 ∷ []))
unpack_data-Shrinks_example = unpack_data-Shrinks (0xC2 ∷ 0x05 ∷ 0x80 ∷ [])
