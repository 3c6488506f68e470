-- ===== src/Models/Validators.antt =====
-- utils/models/model_type_validators.py, the annotated types of utils/models/model_types.py, and the
-- field validators of utils/models/error.py. A validator returns the value of the field, or raises.
pub mod Hex
use neon_tests.Prelude.{
  ℕ, zero, suc, ◌+◌, ◌%◌, [], ◌∷◌, ◌++◌, List, Option, none, some, ltb, leb, ◌==◌, ◌&&◌, ◌||◌, not,
  if◌then◌else◌, length, drop, any, all, Bool, true, false,
}
use neon_tests.Prelude.Int.{ℤ, pos, negsuc, ltb_ℤ}
use neon_tests.Prelude.Text.{Text, codes, starts_with, is_digit, text_eq}
use neon_tests.Py.{Result, ok, err, or_raise, ◌>>=◌, ◌>>◌, guard, value_error, assertion_error}
use neon_tests.Py.Hex.{digit_value}
use neon_tests.Py.Number.{int}

-- `binascii.unhexlify(s)`, by whether it raises: `s` is of an even length.
abbrev pub is_value : Option ℕ → Bool
is_value none = false
is_value (some d) = true

abbrev pub is_hex_digit : ℕ → Bool
is_hex_digit c = is_value (digit_value c)

unfoldable pub unhexlify : Text → Result (Unit {0})
unhexlify s = guard (length s % 2 == 0 && all is_hex_digit s) value_error

-- `s.removeprefix("0x")`
abbrev pub remove_prefix : Text → Text
remove_prefix s = if starts_with s (codes "0x") then drop 2 s else s

abbrev pub to_even : Text → Text
to_even s = if length s % 2 == 0 then s else 48 ∷ s

unfoldable pub validate_hex_string : Text → Result Text
unfolding unhexlify starts_with
validate_hex_string s =
    guard (starts_with s (codes "0x")) assertion_error
    >> unhexlify (to_even (remove_prefix s))
    >> ok s

-- The first characters that are digits, and what is behind them.
abbrev pub digits_then : (at_least_one : Bool) → (Text → Bool) → Text → Bool
digits_then seen next [] = false
digits_then seen next (c ∷ cs) =
    let more = digits_then true next cs in if is_digit c then more else seen && next (c ∷ cs)

abbrev pub starts_with_digit : Text → Bool
starts_with_digit [] = false
starts_with_digit (c ∷ cs) = is_digit c

-- `.` and a digit: the rest of `\d+\.\d+`, which need not reach the end of the text.
abbrev pub dot_digit : Text → Bool
dot_digit [] = false
dot_digit (c ∷ cs) = c == 46 && starts_with_digit cs

pub validate_jsonrpc : Text → Result Text
validate_jsonrpc s = guard (digits_then false dot_digit s) assertion_error >> ok s

pub validate_id : ℤ → Result ℤ
validate_id id = guard (not (ltb_ℤ id (pos 0))) assertion_error >> ok id

pub validate_error_code : ℤ → Result ℤ
validate_error_code code = guard (ltb_ℤ code (pos 0)) assertion_error >> ok code

-- `validate_gas_price` and `validate_estimate_gas_price`, which differ in their layout only.
unfoldable pub validate_gas_price : Text → Result Text
unfolding int
validate_gas_price s = do n ← int 16 s; guard (ltb_ℤ (pos 0) n) assertion_error; ok s

-- `validate_balance` and `validate_storage_string`.
unfoldable pub validate_balance : Text → Result Text
unfolding int
validate_balance s = do n ← int 16 s; guard (not (ltb_ℤ n (pos 0))) assertion_error; ok s

abbrev pub is_zero : ℕ → Bool
is_zero c = c == 48

abbrev pub is_empty : Text → Bool
is_empty [] = true
is_empty (c ∷ cs) = false

-- `s[2:]` is of an even length, and has another character than `0` if it has any.
unfoldable pub validate_non_zero_bytes : Text → Result Text
unfolding starts_with
validate_non_zero_bytes s =
    guard (starts_with s (codes "0x")) assertion_error
    >> guard (length (drop 2 s) % 2 == 0) assertion_error
    >> guard (is_empty (drop 2 s) || any (λ c. not (is_zero c)) (drop 2 s)) assertion_error
    >> ok s

unfoldable pub validate_zero_bytes : Text → Result Text
unfolding starts_with
validate_zero_bytes s =
    guard (starts_with s (codes "0x")) assertion_error
    >> guard (is_empty (drop 2 s) || length (drop 2 s) % 2 == 0) assertion_error
    >> guard (is_empty (drop 2 s) || all is_zero (drop 2 s)) assertion_error
    >> ok s

-- `s.isdigit()`, of ASCII texts.
pub validate_net_version_string : Text → Result Text
validate_net_version_string s = guard (not (is_empty s) && all is_digit s) assertion_error >> ok s

pub validate_is_false : Bool → Result Bool
validate_is_false b = guard (not b) assertion_error >> ok b

-- The annotated types: one validator after another.
unfoldable pub gas_price_string : Text → Result Text
unfolding validate_hex_string validate_gas_price
gas_price_string s = do t ← validate_hex_string s; validate_gas_price t

unfoldable pub balance_string : Text → Result Text
unfolding validate_hex_string validate_balance
balance_string s = do t ← validate_hex_string s; validate_balance t

unfoldable pub non_zero_bytes_string : Text → Result Text
unfolding validate_hex_string validate_non_zero_bytes
non_zero_bytes_string s = do t ← validate_hex_string s; validate_non_zero_bytes t

unfoldable pub zero_bytes_string : Text → Result Text
unfolding validate_hex_string validate_zero_bytes
zero_bytes_string s = do t ← validate_hex_string s; validate_zero_bytes t

-- The validators of the fields of an error return no value, so that a field that passes is `None`.
abbrev pub Nothing : Type 0 → Type 0
Nothing A = Result (Option A)

unfoldable pub check_errors_list : List Text → Nothing (List Text)
check_errors_list [] = err value_error
check_errors_list (e ∷ es) = ok none

unfoldable pub check_message : Text → Nothing Text
check_message [] = err value_error
check_message (c ∷ cs) = ok none

unfoldable pub check_code : ℤ → Nothing ℤ
check_code code = if ltb_ℤ (pos 0) code then err value_error else ok none

-- The detail of an error, of the validated fields.
pub record EthErrorDetail : Type 0 where
  pub code : Option ℤ
  pub message : Option Text
  pub errors : Option (Option (List Text))

abbrev pub validate_data : Option (List Text) → Result (Option (Option (List Text)))
validate_data none = ok none
validate_data (some errors) = do e ← check_errors_list errors; ok (some e)

unfoldable pub validate_detail : ℤ → Text → Option (List Text) → Result EthErrorDetail
unfolding check_errors_list check_message check_code
validate_detail code message errors = do
  c ← check_code code
  m ← check_message message
  e ← validate_data errors
  ok (record { code = c; message = m; errors = e })
