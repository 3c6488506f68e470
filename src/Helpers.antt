-- ===== src/Helpers.antt =====
-- The functions on texts of utils/helpers.py. Letters are ASCII ones. The digest, the encoding of
-- arguments and the compiler are given.
mod Tests
use neon_tests.Prelude.{
  ℕ, zero, suc, ◌+◌, ◌-◌, [], ◌∷◌, ◌++◌, List, Option, none, some, ltb, leb, ◌==◌, ◌&&◌, ◌||◌, not,
  if◌then◌else◌, length, take, drop, replicate, reverse, map, Bool, true, false,
}
use neon_tests.Prelude.Text.{Text, codes, text_eq, starts_with, contains}
use neon_tests.Prelude.Dict.{Dict}
use neon_tests.Py.{Result, ok, err, ◌>>=◌, or_raise, map_result, index_error}
use neon_tests.Py.Bytes.{Bytes, to_bytes_big}
use neon_tests.Py.Hex.{to_hex}
use neon_tests.Results.Order.{keep}

-- `text.split(c)` of one character, behind a part of the first piece.
unfoldable pub split_at : ℕ → Text → Text → List Text
split_at c piece [] = piece ∷ []
split_at c piece (d ∷ ds) =
    let next = split_at c [] ds in
    let longer = split_at c (piece ++ d ∷ []) ds in if d == c then piece ∷ next else longer

abbrev pub last_of : Text → List Text → Text
last_of t [] = t
last_of t (u ∷ us) = last_of u us

-- The interface under the first key whose last piece between colons is the name.
unfoldable pub get_contract_abi : {A : Type 0} → Text → Dict A → Option A
unfolding split_at
get_contract_abi name [] = none
get_contract_abi name ((key, a) ∷ compiled) =
    let later = get_contract_abi name compiled in
    if text_eq name (last_of [] (split_at 58 [] key)) then some a else later

abbrev pub ends_with : Text → Text → Bool
ends_with t end = starts_with (reverse t) (reverse end)

abbrev pub with_sol : Text → Text
with_sol contract = if ends_with contract (codes ".sol") then contract else contract ++ codes ".sol"

-- `text.rsplit(c, 1)`, of the reversed text: what stands before the last `c`, if there is one.
abbrev pub before_last : ℕ → Text → Option Text
before_last c [] = none
before_last c (d ∷ ds) = if d == c then some (reverse ds) else before_last c ds

abbrev pub or_whole : Text → Option Text → Text
or_whole t none = t
or_whole t (some u) = u

-- The name of the contract, and the name of its file, which has the suffix.
unfoldable pub contract_names : Text → Option Text → Text × Text
unfolding split_at starts_with
contract_names contract (some name) = (with_sol contract, name)
contract_names contract none =
    let file = with_sol contract in
    let base = last_of [] (split_at 47 [] file) in
    (file, or_whole base (before_last 46 (reverse base)))

-- The type of an input: `("struct" in internalType, its name, its type, its components)`.
pub record Input : Type 0 where
  pub name : Text
  pub type_name : Text
  pub internal_type : Text
  pub components : List (Text × Text)

abbrev pub joined : List Text → Text
joined [] = []
joined (t ∷ []) = t
joined (t ∷ u ∷ ts) = t ++ 44 ∷ joined (u ∷ ts)

abbrev pub other_types : Text → List (Text × Text) → List Text
other_types name [] = []
other_types name ((n, t) ∷ cs) =
    let rest = other_types name cs in if text_eq n name then rest else t ∷ rest

unfoldable pub input_type : Input → Text
unfolding contains
input_type i =
    if contains (codes "struct") i.internal_type
    then 40 ∷ joined (other_types i.name i.components) ++ codes ")[]"
    else i.type_name

-- An item of an interface.
pub record Item : Type 0 where
  pub name : Text
  pub item_type : Text
  pub inputs : List Input

unfoldable pub encoded_selector : Item → Text
unfolding input_type
encoded_selector f = f.name ++ 40 ∷ joined (map input_type f.inputs) ++ 41 ∷ []

module _ (keccak : Text → Bytes) where
  unfoldable pub get_selectors : List Item → List Bytes
  unfolding encoded_selector keep
  get_selectors abi =
      map (λ f. take 4 (keccak (encoded_selector f)))
        (keep (λ (i : Item). text_eq i.item_type (codes "function")) abi)

  abbrev pub second : List Text → Result Text
  second [] = err index_error
  second (x ∷ []) = err index_error
  second (x ∷ y ∷ ys) = ok y

  abbrev pub first_piece : List Text → Text
  first_piece [] = []
  first_piece (x ∷ xs) = x

  -- `encode` of the types in the parentheses and the arguments.
  abbrev pub encoded :
      {A : Type 0} → (List Text → A → Result Bytes) → Text → Option A → Result Bytes
  encoded encode function_name none = ok []
  encoded encode function_name (some args) = do
    behind ← second (split_at 40 [] function_name)
    encode (split_at 44 [] (first_piece (split_at 41 [] behind))) args

  pub decode_function_signature :
      {A : Type 0} (encode : List Text → A → Result Bytes) → Text → Option A → Result Text
  unfolding split_at to_hex
  decode_function_signature encode function_name args = do
    more ← encoded encode function_name args
    ok (codes "0x" ++ to_hex (take 4 (keccak function_name) ++ more))

  pub cryptohex : Text → Text
  unfolding to_hex
  cryptohex text = codes "0x" ++ to_hex (keccak text)

pub int_to_hex : ℕ → Result Text
unfolding to_bytes_big to_hex
int_to_hex number = do bs ← to_bytes_big number 32; ok (to_hex bs)

abbrev pub is_lower : ℕ → Bool
is_lower c = leb 97 c && leb c 122

abbrev pub is_upper : ℕ → Bool
is_upper c = leb 65 c && leb c 90

abbrev pub to_lower : ℕ → ℕ
to_lower c = if is_upper c then c + 32 else c

abbrev pub to_upper : ℕ → ℕ
to_upper c = if is_lower c then c - 32 else c

-- `text.title()`: a letter is upper case unless it stands behind a letter.
unfoldable pub title : (behind_letter : Bool) → Text → Text
title behind_letter [] = []
title behind_letter (c ∷ cs) =
    (if behind_letter then to_lower c else to_upper c) ∷ title (is_lower c || is_upper c) cs

abbrev pub camel : List Text → Text
camel [] = []
camel (x ∷ xs) = map to_lower x ++ titles xs
  where
    titles : List Text → Text
    titles [] = []
    titles (y ∷ ys) = title false y ++ titles ys

unfoldable pub case_snake_to_camel : Text → Text
unfolding split_at title
case_snake_to_camel snake_str = camel (split_at 95 [] snake_str)

-- `text.zfill(size)`: zeros behind a sign, if there is one.
unfoldable pub zfill : ℕ → Text → Text
zfill size [] = replicate size 48
zfill size (c ∷ cs) =
    let missing = replicate (size - length (c ∷ cs)) 48 in
    if c == 43 || c == 45 then c ∷ missing ++ cs else missing ++ c ∷ cs

unfoldable pub padhex : Text → ℕ → Text
unfolding zfill
padhex s size = codes "0x" ++ zfill size (drop 2 s)
