-- ===== src/Loader/Sends.antt =====
-- The methods of `EvmLoader` that execute a transaction in one or in single steps: what is sent,
-- and who signs. The balance account of an operator is found by the library's search for a program
-- address, and is given here.
use neon_tests.Prelude.{ℕ, ◌^◌, ◌<◌, arith, ◌≡◌, refl, [], ◌∷◌, ◌++◌, List, Option, none, some}
use neon_tests.Py.{Result, ok, ◌>>=◌}
use neon_tests.Py.Bytes.{Bytes}
use neon_tests.Instr.Defs.{
  Instruction, byte_of, Programs, TreasuryPool, make_execute_trx_from_instruction,
  make_execute_trx_from_account, make_execute_trx_from_account_data_iterative_or_continue,
  make_partial_call_or_continue_from_raw_ethereum_tx,
}
use neon_tests.Instr.Budget.{
  default_units, default_heap_frame, budget_instructions, amount_of, budget_instructions-requested,
}
use neon_tests.Instr.Accounts.{
  signers, five, IsExecution, from_instruction-IsExecution, from_account-IsExecution,
}

-- A transaction that is sent, and the keys that sign it.
pub record SentTrx (P : Type 0) : Type 0 where
  pub instructions : List (Instruction P)
  pub signed_by : List P

-- `signer = operator if signer is None else signer`
abbrev pub signer_or : {A : Type 0} → A → Option A → A
signer_or operator none = operator
signer_or operator (some s) = s

module _ {P : Type 0} (programs : Programs P) (balance_of : P → P) (loader : P) where
  -- The instruction stands behind those of the compute budget.
  pub budgeted : P → Option ℕ → Result (Instruction P) → List P → Result (SentTrx P)
  unfolding budget_instructions
  budgeted operator price instruction signed_by = do
    budget ← budget_instructions programs operator default_units default_heap_frame price
    i ← instruction
    ok (record { instructions = budget ++ i ∷ []; signed_by = signed_by })

  pub execute_trx_from_instruction :
      P → P → P → Bytes → Bytes → List P → Option P → P → Option ℕ → Result (SentTrx P)
  unfolding budgeted
  execute_trx_from_instruction operator holder treasury buffer message extra signer system price =
      budgeted operator price
        (make_execute_trx_from_instruction operator (balance_of operator) holder loader treasury
          buffer message extra system 0x3D)
        (signer_or operator signer ∷ [])

  unfoldable pub execute_trx_from_account : P → P → P → Bytes → List P → P → P → Result (SentTrx P)
  unfolding budgeted
  execute_trx_from_account operator holder treasury buffer extra signer system =
      budgeted operator none
        (make_execute_trx_from_account operator (balance_of operator) loader holder treasury buffer
          extra [] system 0x33)
        (signer ∷ [])

  unfoldable pub execute_trx_from_instruction_with_solana_call :
      P → P → P → Bytes → Bytes → List P → Option P → P → Result (SentTrx P)
  unfolding budgeted
  execute_trx_from_instruction_with_solana_call operator holder treasury buffer message extra signer
        system =
      budgeted operator none
        (make_execute_trx_from_instruction operator (balance_of operator) holder loader treasury
          buffer message extra system 0x3E)
        (signer_or operator signer ∷ [])

  pub execute_trx_from_account_with_solana_call :
      P → P → P → Bytes → List P → Option P → List P → P → Result (SentTrx P)
  unfolding budgeted
  execute_trx_from_account_with_solana_call operator holder treasury buffer extra signer cosigners
        system =
      budgeted operator none
        (make_execute_trx_from_account operator (balance_of operator) loader holder treasury buffer
          extra cosigners system 0x39)
        (signer_or operator signer ∷ cosigners)

  unfoldable pub send_transaction_step_from_instruction :
      P → P → TreasuryPool P → P → Bytes → List P → ℕ → P → P → ℕ → ℕ → Result (SentTrx P)
  unfolding budgeted
  send_transaction_step_from_instruction operator balance treasury storage message extra steps
        signer system index tag =
      budgeted operator none
        (make_partial_call_or_continue_from_raw_ethereum_tx index steps message operator balance
          loader storage treasury extra system tag)
        (signer ∷ [])

  unfoldable pub send_transaction_step_from_account :
      P → P → TreasuryPool P → P → List P → ℕ → P → P → Option ℕ → ℕ → ℕ → Result (SentTrx P)
  unfolding budgeted
  send_transaction_step_from_account operator balance treasury storage extra steps signer system
        price tag index =
      budgeted operator price
        (make_execute_trx_from_account_data_iterative_or_continue index steps operator balance
          loader storage treasury extra system tag)
        (signer ∷ [])

  -- The last instruction is the one that executes, and its signers are those of the transaction.
  pub record IsSigned (trx : SentTrx P) : Type 0 where
    pub before : List (Instruction P)
    pub execution : Instruction P
    pub sent : trx.instructions ≡ before ++ execution ∷ []
    pub complete : signers execution.accounts ≡ trx.signed_by

  budgeted-IsSigned :
      (operator : P) (price : Option ℕ) (instruction : Result (Instruction P)) (signed_by : List P)
      (i : Instruction P)
      → amount_of price < 256 ^ 8
      → instruction ≡ ok i
      → signers i.accounts ≡ signed_by
      → (trx : SentTrx P) × (budgeted operator price instruction signed_by ≡ ok trx) × IsSigned trx
  unfolding budgeted
  budgeted-IsSigned operator price instruction signed_by i small e s =
      let (budget, returns, m) =
        budget_instructions-requested programs operator default_units default_heap_frame price
          (omega arith) (omega arith) small in
      (
        record { instructions = budget ++ i ∷ []; signed_by = signed_by },
        rw (returns, e) refl,
        record { before = budget; execution = i; sent = refl; complete = s },
      )

  execution-signed :
      (operator holder treasury system : P) (extra cosigners : List P) (i : Instruction P)
      → IsExecution
          (five holder operator treasury (balance_of operator) system)
          extra
          cosigners
          operator
          i
      → signers i.accounts ≡ operator ∷ cosigners
  execution-signed operator holder treasury system extra cosigners i h = h.signed

  -- With a price that fits 64 bits and without another signer, the transaction that carries the
  -- Ethereum transaction is sent, and it is signed by those, in order, whose signature its last
  -- instruction asks for.
  pub execute_trx_from_instruction-IsSigned :
      (operator holder treasury system : P) (buffer message : Bytes) (extra : List P)
      (price : Option ℕ)
      → amount_of price < 256 ^ 8
      → (trx : SentTrx P) × (execute_trx_from_instruction operator holder treasury buffer message
            extra none system price
          ≡ ok trx)
        × IsSigned trx
  unfolding execute_trx_from_instruction make_execute_trx_from_instruction byte_of
  execute_trx_from_instruction-IsSigned operator holder treasury system buffer message extra price
        small =
      budgeted-IsSigned operator price _ (operator ∷ []) _ small refl (
        execution-signed operator holder treasury system extra [] _ (
          from_instruction-IsExecution holder operator treasury (balance_of operator) system loader
            buffer message extra 0x3D _ refl))

  -- The transaction executes from the holder account and calls Solana: its last instruction is the
  -- program's, with the tag of that execution and the treasury's buffer, on the given accounts in the
  -- order of the program; and the operator and the additional signers, in this order, sign.
  pub record IsExecuted (holder operator treasury system : P) (buffer : Bytes)
      (extra cosigners : List P) (trx : SentTrx P) : Type 0 where
    pub before : List (Instruction P)
    pub execution : Instruction P
    pub sent : trx.instructions ≡ before ++ execution ∷ []
    pub program : execution.program_id ≡ loader
    pub content : execution.data_bytes ≡ 0x39 ∷ buffer
    pub accounts :
        IsExecution
          (five holder operator treasury (balance_of operator) system)
          extra
          cosigners
          operator
          execution
    pub signed_by : trx.signed_by ≡ operator ∷ cosigners

  -- Without another signer, a transaction is sent that executes what stands in the holder account and
  -- calls Solana: its last instruction is the program's, its data are the tag 0x39 and the treasury's
  -- buffer, its accounts are the holder, the operator, the treasury, the operator's balance and the
  -- system program, then the additional accounts, then the additional signers; and it asks for the
  -- signatures of the operator and the additional signers, who sign the transaction in this order.
  pub execute_from_account_with_call-IsExecuted :
      (operator holder treasury system : P) (buffer : Bytes) (extra cosigners : List P)
      → (trx : SentTrx P) × (execute_trx_from_account_with_solana_call operator holder treasury
            buffer extra none cosigners system
          ≡ ok trx)
        × IsExecuted holder operator treasury system buffer extra cosigners trx
  unfolding execute_trx_from_account_with_solana_call make_execute_trx_from_account byte_of budgeted
  execute_from_account_with_call-IsExecuted operator holder treasury system buffer extra cosigners =
      let (budget, returns, m) =
        budget_instructions-requested programs operator default_units default_heap_frame none
          (omega arith) (omega arith) (omega arith) in
      let is =
        from_account-IsExecution holder operator treasury (balance_of operator) system loader buffer
          extra cosigners 0x39 _ refl in
      (
        _,
        rw returns refl,
        record {
          before = budget;
          execution = _;
          sent = refl;
          program = refl;
          content = refl;
          accounts = is;
          signed_by = refl;
        },
      )
