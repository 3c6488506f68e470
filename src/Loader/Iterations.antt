-- ===== src/Loader/Iterations.antt =====
-- The loops send step after step until the first receipt that decides.
use neon_tests.Prelude.{
  ℕ, zero, suc, ◌+◌, ◌^◌, ◌<◌, ◌≡◌, ◌≢◌, refl, ap, subst, [], ◌∷◌, List, Option, some, map, arith,
  length,
}
use neon_tests.Py.{Result, ok, err, assertion_error}
use neon_tests.Py.Bytes.{Bytes}
use neon_tests.Instr.Defs.{Instruction, Programs, TreasuryPool}
use neon_tests.Instr.Layout.{
  StepData, read_step, step_from_account-read, step_from_instruction-read,
}
use neon_tests.Loader.Steps.{
  Receipt, Verdict, finished, running, failing, verdict, Steps, after_receipt, round, step_loop,
  evm_steps, execute_transaction_steps_from_instruction, execute_transaction_steps_from_account,
  execute_transaction_steps_from_account_no_chain_id,
}

-- How a deciding receipt ends the loop.
pub ended : Verdict → Receipt → Result Receipt
ended finished receipt = ok receipt
ended failing receipt = err assertion_error
ended running receipt = ok receipt

pub indices_from : ℕ → ℕ → List ℕ
indices_from k zero = []
indices_from k (suc n) = k ∷ indices_from (k + 1) n

-- What the program reads off the instructions that were sent.
abbrev pub read_steps : {P : Type 0} → List (Instruction P) → List (Option StepData)
read_steps [] = []
read_steps (i ∷ is) = read_step i.data_bytes ∷ read_steps is

-- The loop ended as the receipt of round `n` says, after one step for each index from `k` to `k + n`.
pub record Stops {P : Type 0} (datum : ℕ → StepData) (answer : ℕ → Receipt) (k n : ℕ) (s : Steps P)
    : Type 0 where
  pub result : s.1 ≡ ended (verdict (answer (k + n))) (answer (k + n))
  pub steps : read_steps s.0 ≡ map (λ j. some (datum j)) (indices_from k (suc n))

-- The step of every index below 2 ^ 32 can be built, and reads back as given.
abbrev pub Builds : {P : Type 0} → (ℕ → Result (Instruction P)) → (ℕ → StepData) → Type 0
Builds {P} build datum =
    (j : ℕ)
    → j < 256 ^ 4
    → (i : Instruction P) × (build j ≡ ok i) × (read_step i.data_bytes ≡ some (datum j))

ended_by :
    {P : Type 0} (d : Verdict) (receipt : Receipt) (more : Steps P)
    → d ≢ running
    → after_receipt d receipt more ≡ ([], ended d receipt)
unfolding after_receipt ended
ended_by finished receipt more h = refl
ended_by failing receipt more h = refl
ended_by running receipt more h = absurd (h refl)

module _ {P : Type 0} (answer : ℕ → Receipt) (datum : ℕ → StepData) where
  last_round :
      (k : ℕ) (more : Steps P) (r : Result (Instruction P)) (i : Instruction P)
      → r ≡ ok i
      → read_step i.data_bytes ≡ some (datum k)
      → verdict (answer k) ≢ running
      → Stops datum answer k 0 (round r (answer k) more)
  unfolding round indices_from
  last_round k more r i e d h =
      let z : k + 0 ≡ k = omega arith in
      rw (e, ended_by (verdict (answer k)) (answer k) more h)
        (record { result = rw z; steps = rw d })

  next_round :
      (k n : ℕ) (more : Steps P) (r : Result (Instruction P)) (i : Instruction P)
      → r ≡ ok i
      → read_step i.data_bytes ≡ some (datum k)
      → verdict (answer k) ≡ running
      → Stops datum answer (k + 1) n more
      → Stops datum answer k (suc n) (round r (answer k) more)
  unfolding round after_receipt indices_from
  next_round k n more r i e d h s =
      let z : k + suc n ≡ k + 1 + n = omega arith in
      rw (e, h)
        (record { result = rw z s.result; steps = rw d (ap (λ t. some (datum k) ∷ t) s.steps) })

module _ {P : Type 0} (build : ℕ → Result (Instruction P)) (answer : ℕ → Receipt)
    (datum : ℕ → StepData) where
  step_loop-Stops :
      (n f k : ℕ)
      → Builds build datum
      → n < f
      → k + n < 256 ^ 4
      → ((j : ℕ) → j < n → verdict (answer (k + j)) ≡ running)
      → verdict (answer (k + n)) ≢ running
      → Stops datum answer k n (step_loop build answer f k)
  unfolding step_loop
  step_loop-Stops n zero k b l small before last = absurd (omega arith)
  step_loop-Stops zero (suc f) k b l small before last =
      let (i, e, d) = b k (omega arith) in
      let z : k + 0 ≡ k = omega arith in
      last_round answer datum k (step_loop build answer f (k + 1)) (build k) i e d (rw z at last)
  step_loop-Stops (suc n) (suc f) k b l small before last =
      let (i, e, d) = b k (omega arith) in
      let z : k + 0 ≡ k = omega arith in
      next_round answer datum k n (step_loop build answer f (k + 1)) (build k) i e d
        (rw z at (before 0 (omega arith)))
        (step_loop-Stops n f (k + 1) b (omega arith) (omega arith)
          (λ j h.
            subst (λ m. verdict (answer m) ≡ running) (omega arith) (before (suc j) (omega arith)))
          (subst (λ m. verdict (answer m) ≢ running) (omega arith) last))

-- The data of the step with an index.
abbrev pub datum_of : ℕ → Bytes → Bytes → ℕ → StepData
datum_of tag buffer message index = record {
  tag = tag;
  buffer = buffer;
  steps = evm_steps;
  index = index;
  message = message;
}

-- Round `n` is the first whose receipt decides.
pub record IsFirst (answer : ℕ → Receipt) (n : ℕ) : Type 0 where
  pub before : (j : ℕ) → j < n → verdict (answer j) ≡ running
  pub here : verdict (answer n) ≢ running

IsFirst-Stops :
    {P : Type 0} (build : ℕ → Result (Instruction P)) (answer : ℕ → Receipt) (datum : ℕ → StepData)
    (fuel n : ℕ)
    → Builds build datum
    → n < fuel
    → n < 256 ^ 4
    → IsFirst answer n
    → Stops datum answer 0 n (step_loop build answer fuel 0)
IsFirst-Stops build answer datum fuel n b hf small first =
    step_loop-Stops build answer datum n fuel 0 b hf (omega arith)
      (λ j h. subst (λ m. verdict (answer m) ≡ running) (omega arith) (first.before j h))
      (subst (λ m. verdict (answer m) ≢ running) (omega arith) first.here)

module _ {P : Type 0} (programs : Programs P) (operator balance loader storage : P)
    (treasury : TreasuryPool P) (extra : List P) (answer : ℕ → Receipt) (fuel n : ℕ) where
  -- With a treasury index of 4 bytes, if round `n` is the first with a deciding receipt, and is
  -- within the fuel and below 2 ^ 32, the loop ends there: it returns that receipt, or raises where
  -- the receipt tells of an error, and it has sent the steps 0 to `n`, in order, each with the
  -- whole transaction.
  pub steps_from_instruction-Stops :
      (instruction : Bytes)
      → length treasury.buffer ≡ 4
      → n < fuel
      → n < 256 ^ 4
      → IsFirst answer n
      → Stops (datum_of 0x34 treasury.buffer instruction) answer 0 n (
          execute_transaction_steps_from_instruction programs operator balance loader storage
            treasury extra answer fuel instruction)
  unfolding execute_transaction_steps_from_instruction
  steps_from_instruction-Stops instruction hb hf small first =
      IsFirst-Stops _ answer _ fuel n
        (λ j h.
          step_from_instruction-read operator balance loader storage programs.system treasury extra
            j evm_steps 0x34 instruction hb (omega arith) (omega arith) h)
        hf small first

  -- Where the transaction stands in the holder account, under the same conditions, the loops with
  -- and without a chain id end at round `n`: they return that receipt, or raise where it tells of
  -- an error, and have sent the steps 0 to `n`, in order, which differ in the tag alone.
  pub steps_from_account-Stops :
      length treasury.buffer ≡ 4
      → n < fuel
      → n < 256 ^ 4
      → IsFirst answer n
      → Stops (datum_of 0x35 treasury.buffer []) answer 0 n (
          execute_transaction_steps_from_account programs operator balance loader storage treasury
            extra answer fuel)
        × Stops (datum_of 0x36 treasury.buffer []) answer 0 n (
            execute_transaction_steps_from_account_no_chain_id programs operator balance loader
              storage treasury extra answer fuel)
  unfolding execute_transaction_steps_from_account
      execute_transaction_steps_from_account_no_chain_id
  steps_from_account-Stops hb hf small first =
      let reads = λ (tag : ℕ) (ht : tag < 256) (j : ℕ) (h : j < 256 ^ 4).
        step_from_account-read operator balance loader storage programs.system treasury extra j
          evm_steps tag hb ht (omega arith) h in
      (
        IsFirst-Stops _ answer _ fuel n (reads 0x35 (omega arith)) hf small first,
        IsFirst-Stops _ answer _ fuel n (reads 0x36 (omega arith)) hf small first,
      )
