-- ===== src/Models/Validators/Hex.antt =====
-- What an accepted text is, and what is left of an accepted error.
use neon_tests.Prelude.{
  ℕ, zero, suc, ◌+◌, ◌*◌, ◌/◌, ◌%◌, ◌<◌, ◌≡◌, refl, ap, sym, ◌∙◌, ◌⊎◌, [], ◌∷◌, List, Option, none,
  some, ◌==◌, ◌&&◌, if◌then◌else◌, length, all, Bool, true, false, inl, inr, arith,
}
use neon_tests.Prelude.Int.{ℤ, pos, ltb_ℤ}
use neon_tests.Prelude.Text.{Text, codes, starts_with}
use neon_tests.Py.{
  Error, ok, err, ◌>>◌, guard, assertion_error, value_error, >>=-eq-ok, >>-eq-ok, ok_injective,
}
use neon_tests.Py.Bytes.{Bytes, AreBytes}
use neon_tests.Py.Hex.{digit_value, is_space, hex_pair, from_hex}
use neon_tests.Models.Validators.{
  is_value, is_hex_digit, unhexlify, remove_prefix, to_even, validate_hex_string, check_code,
  check_message, check_errors_list, validate_data, validate_detail, EthErrorDetail,
}

guard-true : (b : Bool) (e : Error) → guard b e ≡ ok tt → b ≡ true
guard-true true e h = refl
guard-true false e h = cc

both : (a b : Bool) → (a && b) ≡ true → (a ≡ true) × (b ≡ true)
both true true h = (refl, refl)
both true false h = cc
both false b h = cc

value-found : (o : Option ℕ) → is_value o ≡ true → (d : ℕ) × (o ≡ some d)
value-found none h = cc
value-found (some d) h = (d, refl)

-- A hexadecimal digit is no white space, and its value is below 16.
digit-not_space : (c : ℕ) → is_hex_digit c ≡ true → is_space c ≡ false
unfolding digit_value is_space
digit-not_space c h = ground arith

digit_value-bound : (c d : ℕ) → digit_value c ≡ some d → d < 16
unfolding digit_value
digit_value-bound c d h = ground arith

from_hex-pair :
    (c d : ℕ) (cs : Text) (bs : Bytes)
    → is_hex_digit c ≡ true
    → is_hex_digit d ≡ true
    → from_hex cs ≡ ok bs
    → AreBytes bs
    → (b : ℕ) × (from_hex (c ∷ d ∷ cs) ≡ ok (b ∷ bs)) × (b < 256)
unfolding from_hex hex_pair
from_hex-pair c d cs bs hc hd rest are =
    let (hi, found_hi) = value-found (digit_value c) hc in
    let (lo, found_lo) = value-found (digit_value d) hd in
    (
      16 * hi + lo,
      rw (digit-not_space c hc, found_hi, found_lo, rest) refl,
      omega (arith, digit_value-bound c hi found_hi, digit_value-bound d lo found_lo),
    )

-- Digits in pairs decode.
all_digits-decode :
    (s : Text) (half : ℕ)
    → length s ≡ half + half
    → all is_hex_digit s ≡ true
    → (bs : Bytes) × (from_hex s ≡ ok bs) × AreBytes bs
unfolding from_hex
all_digits-decode [] half e h = ([], refl, tt)
all_digits-decode (c ∷ []) half e h = absurd (omega arith)
all_digits-decode (c ∷ d ∷ cs) zero e h = absurd (omega arith)
all_digits-decode (c ∷ d ∷ cs) (suc half) e h =
    let (hc, h') = both (is_hex_digit c) _ h in
    let (hd, hs) = both (is_hex_digit d) _ h' in
    let (bs, rest, are) = all_digits-decode cs half (omega arith) hs in
    let (b, decoded, small) = from_hex-pair c d cs bs hc hd rest are in
    (b ∷ bs, decoded, (small, are))

even-half : (n : ℕ) → (n % 2 == 0) ≡ true → (half : ℕ) × (n ≡ half + half)
even-half n h = (n / 2, ground arith)

-- A text that is accepted as a hexadecimal string starts with `0x`, is passed on as it is, and what
-- follows the prefix, with a zero before it if its length is odd, decodes into bytes.
pub validate_hex_string-decodes :
    (s t : Text)
    → validate_hex_string s ≡ ok t
    → (t ≡ s)
      × (starts_with s (codes "0x") ≡ true)
      × (bs : Bytes) × (from_hex (to_even (remove_prefix s)) ≡ ok bs)
      × AreBytes bs
unfolding validate_hex_string unhexlify
validate_hex_string-decodes s t h =
    let digits = to_even (remove_prefix s) in
    let prefix = guard (starts_with s (codes "0x")) assertion_error in
    let (checked, same) = >>-eq-ok (prefix >> unhexlify digits) (ok s) t h in
    let (started, decoded) = >>-eq-ok prefix (unhexlify digits) tt checked in
    let (even, all_digits) =
      both (length digits % 2 == 0) (all is_hex_digit digits)
        (guard-true (length digits % 2 == 0 && all is_hex_digit digits) value_error decoded) in
    let (half, e) = even-half (length digits) even in
    let (bs, is, are) = all_digits-decode digits half e all_digits in
    (
      sym (ok_injective same),
      guard-true (starts_with s (codes "0x")) assertion_error started,
      bs,
      is,
      are,
    )

-- What is left of the checks of an error's fields.
check_code-none : (code : ℤ) (c : Option ℤ) → check_code code ≡ ok c → c ≡ none
unfolding check_code
check_code-none code c h = by (ltb_ℤ (pos 0) code) h
  where
    by : (b : Bool) → (if b then err value_error else ok none) ≡ ok c → c ≡ none
    by true q = cc
    by false q = sym (ok_injective q)

check_message-none : (m : Text) (c : Option Text) → check_message m ≡ ok c → c ≡ none
unfolding check_message
check_message-none [] c h = cc
check_message-none (x ∷ xs) c h = sym (ok_injective h)

validate_data-none :
    (errors : Option (List Text)) (c : Option (Option (List Text)))
    → validate_data errors ≡ ok c
    → (c ≡ none) ⊎ (c ≡ some none)
unfolding check_errors_list
validate_data-none none c h = inl (sym (ok_injective h))
validate_data-none (some []) c h = cc
validate_data-none (some (e ∷ es)) c h = inr (sym (ok_injective h))

-- Whatever the code, the message and the errors of an error are, if the detail is accepted, its code
-- and its message are `None` afterwards, and so are the errors of its data, if it has data.
pub validate_detail-blank :
    (code : ℤ) (message : Text) (errors : Option (List Text)) (d : EthErrorDetail)
    → validate_detail code message errors ≡ ok d
    → (d.code ≡ none) × (d.message ≡ none) × ((d.errors ≡ none) ⊎ (d.errors ≡ some none))
unfolding validate_detail
validate_detail-blank code message errors d h =
    let (c, c_is, h1) = >>=-eq-ok (check_code code) _ h in
    let (m, m_is, h2) = >>=-eq-ok (check_message message) _ h1 in
    let (e, e_is, h3) = >>=-eq-ok (validate_data errors) _ h2 in
    let all = ok_injective h3 in
    (
      sym (ap (λ x. x.code) all) ∙ check_code-none code c c_is,
      sym (ap (λ x. x.message) all) ∙ check_message-none message m m_is,
      elim (validate_data-none errors e e_is) [
        | inl q ↦ inl (sym (ap (λ x. x.errors) all) ∙ q)
        | inr q ↦ inr (sym (ap (λ x. x.errors) all) ∙ q)
      ],
    )
