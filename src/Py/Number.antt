-- ===== src/Py/Number.antt =====
-- `int(text, base)` for the bases 10 and 16, of ASCII digits.
use neon_tests.Prelude.{
  ℕ, zero, suc, ◌+◌, ◌*◌, ◌/◌, ◌%◌, [], ◌∷◌, Option, none, some, ltb, ◌==◌, ◌&&◌, ◌||◌,
  if◌then◌else◌, Bool, true, false, reverse,
}
use neon_tests.Prelude.Int.{ℤ, pos, negsuc}
use neon_tests.Prelude.Text.{Text}
use neon_tests.Py.Outcome.{Result, ok, err, value_error, ◌>>=◌, or_raise}
use neon_tests.Py.Hex.{digit_value, hex_digit}

-- White space, of ASCII, at the start.
abbrev strip_start : Text → Text
strip_start [] = []
strip_start (c ∷ cs) =
    let rest = strip_start cs in
    if ltb 8 c && ltb c 14 || ltb 27 c && ltb c 33 then rest else c ∷ cs

-- `text.strip()`
unfoldable pub strip : Text → Text
strip text = reverse (strip_start (reverse (strip_start text)))

-- A digit of the base.
abbrev below : ℕ → Option ℕ → Option ℕ
below base none = none
below base (some d) = if ltb d base then some d else none

-- The digits, among which single underscores may stand between two of them.
abbrev after_digit : Option ℕ → Bool → Bool → (ℕ → Option ℕ) → Option ℕ → Option ℕ
after_digit (some d) underscore behind next separated = next d
after_digit none underscore behind next separated = if underscore && behind then separated else none

unfoldable pub digits_from : ℕ → ℕ → Bool → Text → Option ℕ
unfolding digit_value
digits_from base n behind [] = if behind then some n else none
digits_from base n behind (c ∷ cs) =
    after_digit (below base (digit_value c)) (c == 95) behind
      (λ d. digits_from base (base * n + d) true cs) (digits_from base n false cs)

abbrev drop_underscore : Text → Text
drop_underscore [] = []
drop_underscore (c ∷ cs) = if c == 95 then cs else c ∷ cs

-- `0x` or `0X`, which base 16 allows.
abbrev drop_prefix : ℕ → Text → Text
drop_prefix base [] = []
drop_prefix base (c ∷ []) = c ∷ []
drop_prefix base (c ∷ d ∷ cs) =
    if base == 16 && c == 48 && (d == 120 || d == 88) then drop_underscore cs else c ∷ d ∷ cs

abbrev negated : ℕ → ℤ
negated zero = pos 0
negated (suc n) = negsuc n

unfoldable pub magnitude : ℕ → Text → Result ℕ
unfolding digits_from
magnitude base text = or_raise (digits_from base 0 false (drop_prefix base text)) value_error

unfoldable pub signed : ℕ → Text → Result ℤ
unfolding magnitude
signed base [] = err value_error
signed base (c ∷ cs) =
    if c == 45
    then (do n ← magnitude base cs; ok (negated n))
    else if c == 43
    then (do n ← magnitude base cs; ok (pos n))
    else (do n ← magnitude base (c ∷ cs); ok (pos n))

unfoldable pub int : (base : ℕ) → Text → Result ℤ
unfolding strip signed
int base text = signed base (strip text)

-- The digits of `hex(n)` before `text`: with as much fuel as the number is large.
pub hex_digits : ℕ → ℕ → Text → Text
unfolding hex_digit
hex_digits zero n text = text
hex_digits (suc f) n text =
    let next = hex_digits f (n / 16) (hex_digit (n % 16) ∷ text) in
    if ltb n 16 then hex_digit n ∷ text else next

-- `hex(n)`
unfoldable pub hex : ℕ → Text
unfolding hex_digits
hex n = 48 ∷ 120 ∷ hex_digits (n + 1) n []
