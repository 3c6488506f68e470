-- ===== src/Instr/Budget.antt =====
-- `ComputeBudget` and `TransactionWithComputeBudget` of utils/instructions.py.
use neon_tests.Prelude.{
  ℕ, zero, suc, ◌*◌, ◌^◌, ◌<◌, ◌≡◌, refl, [], ◌∷◌, ◌++◌, List, true, false, Option, none, some, map,
}
use mathlib.Core.List.{map-append}
use neon_tests.Py.{Result, ok, ◌>>=◌}
use neon_tests.Py.Bytes.{to_bytes_little, to_little, from_little}
use neon_tests.Py.Bytes.Laws.{to_bytes_little-ok, from_little-to_little}
use neon_tests.Instr.Defs.{Instruction, Programs, meta}

abbrev pub default_units : ℕ
default_units = 1_400_000

abbrev pub default_heap_frame : ℕ
default_heap_frame = 256 * 1024

module _ {P : Type 0} (programs : Programs P) (operator : P) where
  -- The three kinds of request differ in the first byte and the width of the number.
  pub budget_instruction : ℕ → ℕ → ℕ → Result (Instruction P)
  budget_instruction code width amount = do
    number ← to_bytes_little width amount
    ok (record {
      program_id = programs.compute_budget;
      data_bytes = code ∷ number;
      accounts = meta operator true false ∷ [];
    })

  pub request_units : ℕ → Result (Instruction P)
  unfolding budget_instruction
  request_units units = budget_instruction 2 4 units

  pub request_heap_frame : ℕ → Result (Instruction P)
  unfolding budget_instruction
  request_heap_frame frame = budget_instruction 1 4 frame

  pub set_compute_units_price : ℕ → Result (Instruction P)
  unfolding budget_instruction
  set_compute_units_price price = budget_instruction 3 8 price

  -- `if amount: self.add(request(amount))`
  pub add_if : (ℕ → Result (Instruction P)) → Option ℕ → Result (List (Instruction P))
  add_if request none = ok []
  add_if request (some zero) = ok []
  add_if request (some (suc n)) = do i ← request (suc n); ok (i ∷ [])

  -- The instructions with which a transaction begins. The price may be `None`.
  unfoldable pub budget_instructions : ℕ → ℕ → Option ℕ → Result (List (Instruction P))
  unfolding add_if request_units request_heap_frame set_compute_units_price
  budget_instructions units frame price = do
    is ← add_if request_units (some units)
    js ← add_if request_heap_frame (some frame)
    ks ← add_if set_compute_units_price price
    ok (is ++ (js ++ ks))

-- How the budget program reads an instruction: the kind, and the amount behind it.
pub read_request : {P : Type 0} → Instruction P → Option (ℕ × ℕ)
read_request i = elim i.data_bytes [ [] ↦ none | code ∷ number ↦ some (code, from_little number) ]

-- A request stands in the transaction if its amount is not 0.
pub requested : ℕ → ℕ → List (Option (ℕ × ℕ))
requested code zero = []
requested code (suc n) = some (code, suc n) ∷ []

abbrev pub amount_of : Option ℕ → ℕ
amount_of none = 0
amount_of (some n) = n

module _ {P : Type 0} (programs : Programs P) (operator : P) where
  add_if-requested :
      (code width : ℕ) (o : Option ℕ)
      → amount_of o < 256 ^ width
      → (is : List (Instruction P)) × (add_if programs operator
            (budget_instruction programs operator code width)
            o
          ≡ ok is)
        × (map read_request is ≡ requested code (amount_of o))
  unfolding add_if budget_instruction read_request requested
  add_if-requested code width none h = ([], refl, refl)
  add_if-requested code width (some zero) h = ([], refl, refl)
  add_if-requested code width (some (suc n)) h = (
    record {
      program_id = programs.compute_budget;
      data_bytes = code ∷ to_little width (suc n);
      accounts = meta operator true false ∷ [];
    }
        ∷ [],
    rw (to_bytes_little-ok width (suc n) h),
    rw (from_little-to_little width (suc n) h),
  )

  -- Amounts that fit their width are requested, each under its code and in the order units, heap
  -- frame, price; an amount of 0 and a missing price are left out.
  pub budget_instructions-requested :
      (units frame : ℕ) (price : Option ℕ)
      → units < 256 ^ 4
      → frame < 256 ^ 4
      → amount_of price < 256 ^ 8
      → (is : List (Instruction P)) × (budget_instructions programs operator units frame price
          ≡ ok is)
        × (map read_request is
            ≡ requested 2 units ++ (requested 1 frame ++ requested 3 (amount_of price)))
  unfolding budget_instructions
  budget_instructions-requested units frame price hu hf hp =
      let (is, e1, m1) = add_if-requested 2 4 (some units) hu in
      let (js, e2, m2) = add_if-requested 1 4 (some frame) hf in
      let (ks, e3, m3) = add_if-requested 3 8 price hp in
      (is ++ (js ++ ks), rw (e1, e2, e3), simp (map-append, m1, m2, m3))
