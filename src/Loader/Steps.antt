-- ===== src/Loader/Steps.antt =====
-- `execute_transaction_steps_from_instruction`, `…_from_account` and `…_no_chain_id` of
-- `EvmLoader`. What the chain answers to the k-th step is the k-th answer of the environment.
use neon_tests.Prelude.{ℕ, zero, suc, ◌+◌, [], ◌∷◌, List, Bool, if◌then◌else◌}
use neon_tests.Prelude.Text.{Text, codes, contains}
use neon_tests.Py.{Result, ok, err, assertion_error, out_of_fuel}
use neon_tests.Py.Bytes.{Bytes}
use neon_tests.Instr.Defs.{
  Instruction, Programs, TreasuryPool, make_execute_trx_from_account_data_iterative_or_continue,
  make_partial_call_or_continue_from_raw_ethereum_tx,
}

abbrev pub evm_steps : ℕ
evm_steps = 500

-- Of `GetTransactionResp`: whether `meta.err` is set, and `meta.log_messages`.
pub record Receipt : Type 0 where
  pub failed : Bool
  pub log_messages : List Text

-- What a receipt tells the loop.
pub data Verdict : Type 0 where
  finished running failing : Verdict

abbrev pub exit_status : Text
exit_status = codes "exit_status"

abbrev pub exit_error : Text
exit_error = codes "ExitError"

-- `for log in log_messages`: the first line with a mark decides.
pub scan_logs : List Text → Verdict
scan_logs [] = running
scan_logs (log ∷ logs) =
    if contains exit_status log
    then finished
    else if contains exit_error log
    then failing
    else scan_logs logs

unfoldable pub verdict : Receipt → Verdict
unfolding scan_logs
verdict r = if r.failed then failing else scan_logs r.log_messages

-- The instructions that were sent, and the last receipt or the error.
abbrev pub Steps : Type 0 → Type 0
Steps P = List (Instruction P) × Result Receipt

abbrev pub sent_before : {P : Type 0} → Instruction P → Steps P → Steps P
sent_before i (is, r) = (i ∷ is, r)

module _ {P : Type 0} where
  -- One round, given the rounds that would follow.
  unfoldable pub after_receipt : Verdict → Receipt → Steps P → Steps P
  after_receipt finished receipt more = ([], ok receipt)
  after_receipt failing receipt more = ([], err assertion_error)
  after_receipt running receipt more = more

  unfoldable pub round : Result (Instruction P) → Receipt → Steps P → Steps P
  unfolding after_receipt verdict
  round (err e) receipt more = ([], err e)
  round (ok i) receipt more = sent_before i (after_receipt (verdict receipt) receipt more)

module _ {P : Type 0} (build : ℕ → Result (Instruction P)) (answer : ℕ → Receipt) where
  -- `while not done`, with fuel for the rounds.
  unfoldable pub step_loop : ℕ → ℕ → Steps P
  unfolding round
  step_loop zero index = ([], err out_of_fuel)
  step_loop (suc f) index =
      let more = step_loop f (index + 1) in round (build index) (answer index) more

module _ {P : Type 0} (programs : Programs P) (operator balance loader storage : P)
    (treasury : TreasuryPool P) (extra : List P) (answer : ℕ → Receipt) where
  unfoldable pub execute_transaction_steps_from_instruction : ℕ → Bytes → Steps P
  unfolding step_loop
  execute_transaction_steps_from_instruction fuel instruction =
      step_loop
        (λ index.
          make_partial_call_or_continue_from_raw_ethereum_tx index evm_steps instruction operator
            balance loader storage treasury extra programs.system 0x34)
        answer fuel 0

  unfoldable pub execute_transaction_steps_from_account : ℕ → Steps P
  unfolding step_loop
  execute_transaction_steps_from_account fuel =
      step_loop
        (λ index.
          make_execute_trx_from_account_data_iterative_or_continue index evm_steps operator balance
            loader storage treasury extra programs.system 0x35)
        answer fuel 0

  unfoldable pub execute_transaction_steps_from_account_no_chain_id : ℕ → Steps P
  unfolding step_loop
  execute_transaction_steps_from_account_no_chain_id fuel =
      step_loop
        (λ index.
          make_execute_trx_from_account_data_iterative_or_continue index evm_steps operator balance
            loader storage treasury extra programs.system 0x36)
        answer fuel 0
