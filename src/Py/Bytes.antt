-- ===== src/Py/Bytes.antt =====
-- `int.to_bytes`, `int.from_bytes`, `int.bit_length` and `bytes.hex`. A byte is a number below 256.
pub mod Laws
use neon_tests.Prelude.{
  ℕ, zero, suc, ◌+◌, ◌*◌, ◌/◌, ◌%◌, ◌^◌, ◌<◌, Bool, List, [], ◌∷◌, ◌++◌, reverse, ltb, ◌==◌,
  if◌then◌else◌, All,
}
use neon_tests.Py.Outcome.{Result, ok, err, overflow_error}

abbrev pub Bytes : Type 0
Bytes = List ℕ

abbrev pub AreBytes : Bytes → Type 0
AreBytes = All (λ b. b < 256)

-- The `n` low bytes of `v`, lowest first.
unfoldable pub to_little : ℕ → ℕ → Bytes
to_little zero v = []
to_little (suc n) v = (v % 256) ∷ to_little n (v / 256)

unfoldable pub from_little : Bytes → ℕ
from_little [] = 0
from_little (b ∷ bs) = b + 256 * from_little bs

-- `v.to_bytes(n, "little")`
unfoldable pub to_bytes_little : ℕ → ℕ → Result Bytes
unfolding to_little
to_bytes_little n v = if ltb v (256 ^ n) then ok (to_little n v) else err overflow_error

-- `v.to_bytes(n, "big")`
unfoldable pub to_bytes_big : ℕ → ℕ → Result Bytes
unfolding to_little
to_bytes_big n v = if ltb v (256 ^ n) then ok (reverse (to_little n v)) else err overflow_error

-- `int.from_bytes(bs, "big")`
pub from_bytes_big : Bytes → ℕ
unfolding from_little
from_bytes_big bs = from_little (reverse bs)

-- The fuel is the number itself: halving reaches 0 within that many rounds.
pub bit_length_loop : ℕ → ℕ → ℕ
bit_length_loop zero v = 0
bit_length_loop (suc f) v = let rest = suc (bit_length_loop f (v / 2)) in if v == 0 then 0 else rest

-- `v.bit_length()`
pub bit_length : ℕ → ℕ
unfolding bit_length_loop
bit_length v = bit_length_loop v v

-- `(v.bit_length() + 7) // 8`
pub byte_length : ℕ → ℕ
unfolding bit_length
byte_length v = (bit_length v + 7) / 8
