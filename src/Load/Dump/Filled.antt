-- ===== src/Load/Dump/Filled.antt =====
-- What the tests of the tracer choose from is there.
use neon_tests.Prelude.{
  ℕ, zero, suc, ◌%◌, ◌<◌, ◌≡◌, refl, subst, [], ◌∷◌, ◌++◌, List, some, get_elem?, length, All, inl,
  inr, Bool-cases, arith,
}
use native.Mathlib.Nat.{mod-lt, zero-lt-suc}
use neon_tests.Prelude.Text.{Text, text_eq, text_eq_iff}
use neon_tests.Prelude.Dict.{Dict, lookup, put, keys, lookup-put}
use neon_tests.Py.{ok}
use neon_tests.Load.Tracer.{
  RpcType, type_name, Stored, History, Chosen, choice, get, get_random_transaction,
}
use neon_tests.Load.Dump.{Receipt, Info, or_empty, append_stored, stored, dump_history}

abbrev pub IsNonempty {ℓ} : {A : Type ℓ} → List A → Type 0
IsNonempty [] = ⊥
IsNonempty (x ∷ xs) = Unit {0}

-- Every type of the history has an account, and every account a transaction.
abbrev pub IsFilled : History → Type 0
IsFilled = All (λ d. IsNonempty d.1 × All (λ a. IsNonempty a.1) d.1)

some_injective {ℓ} : {A : Type ℓ} {a b : A} → some a ≡ some b → a ≡ b
some_injective e = cc

-- An entry satisfies what all entries do.
All-lookup {ℓ κ} :
    {A : Type ℓ} (P : A → Type κ) (k : Text) (d : Dict A) (a : A)
    → All (λ e. P e.1) d
    → lookup k d ≡ some a
    → P a
All-lookup P k [] a h e = cc
All-lookup P k ((j, b) ∷ d) a (h, hs) e = elim (Bool-cases (text_eq j k)) [
  | inl same ↦ subst P (some_injective (rw same at e)) h
  | inr other ↦ All-lookup P k d a hs (rw other at e)
]

All-put {ℓ κ} :
    {A : Type ℓ} (P : A → Type κ) (k : Text) (a : A) (d : Dict A)
    → All (λ e. P e.1) d
    → P a
    → All (λ e. P e.1) (put k a d)
All-put P k a [] h p = (p, tt)
All-put P k a ((j, b) ∷ d) (h, hs) p = elim (Bool-cases (text_eq j k)) [
  | inl same ↦ rw same (p, hs)
  | inr other ↦ rw other (h, All-put P k a d hs p)
]

put-IsNonempty {ℓ} : {A : Type ℓ} (k : Text) (a : A) (d : Dict A) → IsNonempty (put k a d)
put-IsNonempty k a [] = tt
put-IsNonempty k a ((j, b) ∷ d) = elim (Bool-cases (text_eq j k)) [
  | inl same ↦ rw same tt
  | inr other ↦ rw other tt
]

snoc-IsNonempty {ℓ} : {A : Type ℓ} (xs : List A) (a : A) → IsNonempty (xs ++ a ∷ [])
snoc-IsNonempty [] a = tt
snoc-IsNonempty (x ∷ xs) a = tt

get_elem?-found {ℓ} :
    {A : Type ℓ} (xs : List A) (i : ℕ) → i < length xs → (a : A) × (get_elem? xs i ≡ some a)
get_elem?-found [] i h = absurd (omega arith)
get_elem?-found (x ∷ xs) zero h = (x, refl)
get_elem?-found (x ∷ xs) (suc i) h = get_elem?-found xs i (omega arith)

choice-found :
    {A : Type 0} (i : ℕ) (xs : List A)
    → IsNonempty xs
    → (k : ℕ) × (a : A) × (get_elem? xs k ≡ some a) × (choice i xs ≡ ok a)
choice-found i [] h = absurd h
choice-found {A} i (x ∷ xs) h = found (get_elem?-found (x ∷ xs) (i % length (x ∷ xs)) small)
  where
    small : i % suc (length xs) < suc (length xs)
    small = mod-lt i (zero-lt-suc (length xs))

    found :
        (a : A) × (get_elem? (x ∷ xs) (i % length (x ∷ xs)) ≡ some a)
        → (k : ℕ) × (a : A) × (get_elem? (x ∷ xs) k ≡ some a) × (choice i (x ∷ xs) ≡ ok a)
    found (a, e) = (i % length (x ∷ xs), a, e, rw e refl)

-- A key at some place has a value.
key-lookup :
    {A : Type 0} (d : Dict A) (i : ℕ) (k : Text)
    → get_elem? (keys d) i ≡ some k
    → (a : A) × (lookup k d ≡ some a)
key-lookup [] i k e = cc
key-lookup ((j, b) ∷ d) zero k e = (b, rw ((text_eq_iff j k).1 (some_injective e)) refl)
key-lookup ((j, b) ∷ d) (suc i) k e = elim (Bool-cases (text_eq j k)) [
  | inl same ↦ (b, rw same refl)
  | inr other ↦ rw other (key-lookup d i k e)
]

keys-IsNonempty : {A : Type 0} (d : Dict A) → IsNonempty d → IsNonempty (keys d)
keys-IsNonempty [] h = h
keys-IsNonempty ((j, b) ∷ d) h = tt

choose-found :
    (i j : ℕ) (accounts : Dict (List Stored))
    → IsNonempty accounts
    → All (λ a. IsNonempty a.1) accounts
    → (account : Text) × (txs : List Stored) × (t : Stored) × (choice i (keys accounts)
        ≡ ok account)
      × (lookup account accounts ≡ some txs)
      × (choice j txs ≡ ok t)
choose-found i j accounts some_account filled =
    let (k, account, at, chosen) =
      choice-found i (keys accounts) (keys-IsNonempty accounts some_account) in
    let (txs, found) = key-lookup accounts k account at in
    let (m, t, there, picked) =
      choice-found j txs (All-lookup IsNonempty account accounts txs filled found) in
    (account, txs, t, chosen, found, picked)

get_random_transaction-found :
    (history : History) (kind : RpcType) (method : Text) (accounts : Dict (List Stored)) (i j : ℕ)
    → get method ≡ ok kind
    → lookup (type_name kind) history ≡ some accounts
    → IsNonempty accounts
    → All (λ a. IsNonempty a.1) accounts
    → (c : Chosen) × (get_random_transaction history i j method ≡ ok c)
unfolding get_random_transaction
get_random_transaction-found history kind method accounts i j is there some_account filled =
    let (account, txs, t, chosen, found, picked) = choose-found i j accounts some_account filled in
    (record { trx = t; sender = account }, rw (is, there, chosen, found, picked) refl)

-- The entry of a new transaction.
or_empty-filled :
    (attr : Text) (history : History)
    → IsFilled history
    → All (λ a. IsNonempty a.1) (or_empty (lookup attr history))
or_empty-filled attr [] h = tt
or_empty-filled attr ((k, accounts) ∷ history) (h, hs) = elim (Bool-cases (text_eq k attr)) [
  | inl same ↦ rw same h.1
  | inr other ↦ rw other (or_empty-filled attr history hs)
]

-- In a history that is filled, after a task that returned a receipt, the history is filled, and every
-- random choice for a method of the task's type gives a transaction.
pub dump_history-chosen :
    (history : History) (kind : RpcType) (tx : Receipt) (info : Info) (i j : ℕ) (method : Text)
    → IsFilled history
    → get method ≡ ok kind
    → IsFilled (dump_history kind (some (some tx, info)) history).0
      × (c : Chosen) × (get_random_transaction
            (dump_history kind (some (some tx, info)) history).0
            i
            j
            method
          ≡ ok c)
unfolding dump_history append_stored
dump_history-chosen history kind tx info i j method filled is =
    let attr = type_name kind in
    let accounts = or_empty (lookup attr history) in
    let txs = or_empty (lookup tx.sender accounts) ++ stored tx info ∷ [] in
    let each : All (λ a. IsNonempty a.1) (put tx.sender txs accounts) =
      All-put IsNonempty tx.sender txs accounts (or_empty-filled attr history filled)
        (snoc-IsNonempty (or_empty (lookup tx.sender accounts)) (stored tx info)) in
    let (c, chosen) =
      get_random_transaction-found _ kind method (put tx.sender txs accounts) i j is
        (lookup-put attr (put tx.sender txs accounts) history)
        (put-IsNonempty tx.sender txs accounts) each in
    (
      All-put (λ d. IsNonempty d × All (λ a. IsNonempty a.1) d) attr (put tx.sender txs accounts)
          history filled (put-IsNonempty tx.sender txs accounts, each),
      c,
      chosen,
    )
