-- ===== src/Py/Outcome.antt =====
-- Exceptions as values. A call that may raise returns a `Result`.
use neon_tests.Prelude.{◌≡◌, refl, subst, Bool, true, false, List, [], ◌∷◌, Option, none, some}

-- The classes of the exceptions that the modelled code raises or lets through.
pub data Error : Type 0 where
  -- no Python exception: the fuel of the model ran out
  out_of_fuel : Error
  value_error type_error index_error key_error attribute_error : Error
  overflow_error struct_error unicode_error assertion_error : Error
  recursion_error runtime_error timeout_error click_exception plain_exception name_error : Error
  file_not_found integrity_error database_error validation_error system_exit http_error : Error

pub data Result {ℓ} (A : Type ℓ) : Type ℓ where
  err : Error → Result A
  ok : A → Result A

-- `raise e` where there is no value.
abbrev pub or_raise {ℓ} : {A : Type ℓ} → Option A → Error → Result A
or_raise (some x) e = ok x
or_raise none e = err e

-- `assert b` and `if not b: raise e`
abbrev pub guard : (holds : Bool) (otherwise : Error) → Result (Unit {0})
guard false otherwise = err otherwise
guard true otherwise = ok tt

-- One call after another: an exception of the first is the exception of both.
infixl 5 ◌>>=◌ ◌>>◌
abbrev pub ◌>>=◌ {κ μ} :
    {X : Type κ} {Y : Type μ} (call : Result X) (next : X → Result Y) → Result Y
err raised >>= next = err raised
ok value >>= next = next value

abbrev pub ◌>>◌ {μ} : {Y : Type μ} (call : Result (Unit {0})) (next : Result Y) → Result Y
err raised >> next = err raised
ok value >> next = next

-- The parts of a call that returned.
pub >>=-eq-ok {κ μ} :
    {X : Type κ} {Y : Type μ} (call : Result X) (next : X → Result Y) {y : Y}
    → (call >>= next) ≡ ok y
    → (x : X) × (call ≡ ok x) × (next x ≡ ok y)
>>=-eq-ok (err raised) next returned = cc
>>=-eq-ok (ok value) next returned = (value, refl, returned)

pub >>-eq-ok {μ} :
    {Y : Type μ} (call : Result (Unit {0})) (next : Result Y) (y : Y)
    → (call >> next) ≡ ok y
    → (call ≡ ok tt) × (next ≡ ok y)
>>-eq-ok (err raised) next y returned = cc
>>-eq-ok (ok tt) next y returned = (refl, returned)

pub ok_injective {ℓ} : {A : Type ℓ} {a b : A} → ok a ≡ ok b → a ≡ b
ok_injective e = cc

-- A list comprehension whose element may raise.
abbrev pub map_result {ℓ κ} : {A : Type ℓ} {B : Type κ} → (A → Result B) → List A → Result (List B)
map_result f [] = ok []
map_result f (x ∷ xs) = do y ← f x; ys ← map_result f xs; ok (y ∷ ys)

pub bind_assoc {ℓ κ μ} :
    {A : Type ℓ} {B : Type κ} {C : Type μ} (m : Result A) (f : A → Result B) (g : B → Result C)
    → (m >>= f >>= g) ≡ (m >>= λ a. f a >>= g)
bind_assoc (ok a) f g = refl
bind_assoc (err e) f g = refl

-- A predicate on the value, if the call returns one.
abbrev pub IfReturns {ℓ κ} : {A : Type ℓ} → (A → Type κ) → Result A → Type (ℓ ⊔ κ)
IfReturns {A} P r = (a : A) → r ≡ ok a → P a

pub IfReturns-bind {ℓ κ μ} :
    {A : Type ℓ} {B : Type κ} (P : B → Type μ) (r : Result A) (f : A → Result B)
    → ((a : A) → IfReturns P (f a))
    → IfReturns P (r >>= f)
IfReturns-bind P (ok a) f h b e = h a b e
IfReturns-bind P (err e) f h b q = cc

pub IfReturns-ok {ℓ κ} : {A : Type ℓ} (P : A → Type κ) (a : A) → P a → IfReturns P (ok a)
IfReturns-ok P a h b e = subst P (cc) h
