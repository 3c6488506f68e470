-- ===== src/Py/Hex.antt =====
-- `bytes.hex` and `bytes.fromhex`.
use neon_tests.Prelude.{
  ℕ, ◌+◌, ◌-◌, ◌*◌, ◌/◌, ◌%◌, ◌<◌, ◌≡◌, refl, ap, Bool, false, ◌&&◌, ◌||◌, [], ◌∷◌, arith, Option,
  none, some, ltb, leb, ◌==◌, if◌then◌else◌,
}
use neon_tests.Prelude.Text.{Text}
use neon_tests.Py.Outcome.{Result, ok, err, value_error, ◌>>=◌, or_raise}
use neon_tests.Py.Bytes.{Bytes, AreBytes}

-- A digit of `hex`, lower case.
unfoldable pub hex_digit : ℕ → ℕ
hex_digit d = if ltb d 10 then 48 + d else 87 + d

unfoldable pub to_hex : Bytes → Text
unfolding hex_digit
to_hex [] = []
to_hex (b ∷ bs) = hex_digit (b / 16) ∷ hex_digit (b % 16) ∷ to_hex bs

-- The value of a digit, of either case.
unfoldable pub digit_value : ℕ → Option ℕ
digit_value c =
    if leb 48 c && leb c 57
    then some (c - 48)
    else if leb 97 c && leb c 102
    then some (c - 87)
    else if leb 65 c && leb c 70
    then some (c - 55)
    else none

unfoldable pub is_space : ℕ → Bool
is_space c = leb 9 c && leb c 13 || c == 32

unfoldable pub hex_pair : ℕ → ℕ → Result Bytes → Result Bytes
unfolding digit_value
hex_pair c d rest = do
  hi ← or_raise (digit_value c) value_error
  lo ← or_raise (digit_value d) value_error
  bs ← rest
  ok ((16 * hi + lo) ∷ bs)

-- White space may stand between two bytes, and nowhere else.
unfoldable pub from_hex : Text → Result Bytes
unfolding is_space hex_pair
from_hex [] = ok []
from_hex (c ∷ []) = if is_space c then ok [] else err value_error
from_hex (c ∷ d ∷ cs) =
    let skip = from_hex (d ∷ cs) in
    let byte = hex_pair c d (from_hex cs) in if is_space c then skip else byte

digit_value-hex_digit : (d : ℕ) → d < 16 → digit_value (hex_digit d) ≡ some d
unfolding digit_value hex_digit
digit_value-hex_digit d h = ground arith

hex_digit-not_space : (d : ℕ) → d < 16 → is_space (hex_digit d) ≡ false
unfolding is_space hex_digit
hex_digit-not_space d h = ground arith

hex_pair-hex_digit :
    (b : ℕ) (rest : Result Bytes) (bs : Bytes)
    → b < 256
    → rest ≡ ok bs
    → hex_pair (hex_digit (b / 16)) (hex_digit (b % 16)) rest ≡ ok (b ∷ bs)
unfolding hex_pair
hex_pair-hex_digit b rest bs h e =
    let whole : 16 * (b / 16) + b % 16 ≡ b = omega arith in
    rw
      (
        digit_value-hex_digit (b / 16) (omega arith),
        digit_value-hex_digit (b % 16) (omega arith),
        e,
      )
      (ap (λ n. ok (n ∷ bs)) whole)

-- Printed bytes read back.
pub from_hex-to_hex : (bs : Bytes) → AreBytes bs → from_hex (to_hex bs) ≡ ok bs
unfolding from_hex to_hex
from_hex-to_hex [] h = refl
from_hex-to_hex (b ∷ bs) h =
    rw (hex_digit-not_space (b / 16) (omega arith))
      (hex_pair-hex_digit b _ bs h.0 (from_hex-to_hex bs h.1))
