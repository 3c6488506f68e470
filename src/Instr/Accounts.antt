-- ===== src/Instr/Accounts.antt =====
-- Who signs and what is written in the instructions that execute a transaction.
use neon_tests.Prelude.{arith, ℕ, ◌≡◌, refl, ap, [], ◌∷◌, ◌++◌, List, if◌then◌else◌, append-nil}
use neon_tests.Py.{ok, IfReturns-bind, IfReturns-ok}
use neon_tests.Py.Bytes.{Bytes, to_bytes_little}
use neon_tests.Instr.Defs.{
  AccountMeta, Instruction, byte_of, additional_metas, signer_metas, execution_metas,
  make_execute_trx_from_instruction, make_execute_trx_from_account,
  make_execute_trx_from_account_data_iterative_or_continue,
  make_partial_call_or_continue_from_raw_ethereum_tx,
}

module _ {P : Type 0} where
  -- The keys that must sign, in the order of the accounts.
  unfoldable pub signers : List (AccountMeta P) → List P
  signers [] = []
  signers (m ∷ ms) = if m.is_signer then m.pubkey ∷ signers ms else signers ms

  pub keys : List (AccountMeta P) → List P
  keys [] = []
  keys (m ∷ ms) = m.pubkey ∷ keys ms

  pub read_only : List (AccountMeta P) → List P
  read_only [] = []
  read_only (m ∷ ms) = if m.is_writable then read_only ms else m.pubkey ∷ read_only ms

  signers-append : (xs ys : List (AccountMeta P)) → signers (xs ++ ys) ≡ signers xs ++ signers ys
  unfolding signers
  signers-append [] ys = refl
  signers-append (m ∷ xs) ys = ground (arith, signers-append xs ys)

  keys-append : (xs ys : List (AccountMeta P)) → keys (xs ++ ys) ≡ keys xs ++ keys ys
  unfolding keys
  keys-append [] ys = refl
  keys-append (m ∷ xs) ys = ap (λ t. m.pubkey ∷ t) (keys-append xs ys)

  read_only-append :
      (xs ys : List (AccountMeta P)) → read_only (xs ++ ys) ≡ read_only xs ++ read_only ys
  unfolding read_only
  read_only-append [] ys = refl
  read_only-append (m ∷ xs) ys = ground (arith, read_only-append xs ys)

  signers-additional : (xs : List P) → signers (additional_metas xs) ≡ []
  unfolding signers additional_metas
  signers-additional [] = refl
  signers-additional (x ∷ xs) = signers-additional xs

  keys-additional : (xs : List P) → keys (additional_metas xs) ≡ xs
  unfolding keys additional_metas
  keys-additional [] = refl
  keys-additional (x ∷ xs) = ap (λ t. x ∷ t) (keys-additional xs)

  read_only-additional : (xs : List P) → read_only (additional_metas xs) ≡ []
  unfolding read_only additional_metas
  read_only-additional [] = refl
  read_only-additional (x ∷ xs) = read_only-additional xs

  signers-signer_metas : (xs : List P) → signers (signer_metas xs) ≡ xs
  unfolding signers signer_metas
  signers-signer_metas [] = refl
  signers-signer_metas (x ∷ xs) = ap (λ t. x ∷ t) (signers-signer_metas xs)

  keys-signer_metas : (xs : List P) → keys (signer_metas xs) ≡ xs
  unfolding keys signer_metas
  keys-signer_metas [] = refl
  keys-signer_metas (x ∷ xs) = ap (λ t. x ∷ t) (keys-signer_metas xs)

  read_only-signer_metas : (xs : List P) → read_only (signer_metas xs) ≡ []
  unfolding read_only signer_metas
  read_only-signer_metas [] = refl
  read_only-signer_metas (x ∷ xs) = read_only-signer_metas xs

ruleset account_laws = (
  append-nil, signers-append, keys-append, read_only-append, signers-additional, keys-additional,
  read_only-additional, signers-signer_metas, keys-signer_metas, read_only-signer_metas,
)

-- The accounts are the given five, then the additional ones, then the additional signers; the
-- operator and the additional signers sign, nobody else; everything is writable.
pub record IsExecution {P : Type 0} (five extra cosigners : List P) (operator : P)
    (i : Instruction P) : Type 0 where
  pub order : keys i.accounts ≡ five ++ (extra ++ cosigners)
  pub signed : signers i.accounts ≡ operator ∷ cosigners
  pub written : read_only i.accounts ≡ []

module _ {P : Type 0} (holder operator treasury balance system : P) where
  abbrev pub five : List P
  five = holder ∷ operator ∷ treasury ∷ balance ∷ system ∷ []

  metas-IsExecution :
      (extra cosigners : List P) (loader : P) (content : Bytes)
      → IsExecution five extra cosigners operator (record {
        program_id = loader;
        data_bytes = content;
        accounts =
            execution_metas holder operator treasury balance system
            ++ (additional_metas extra ++ signer_metas cosigners);
      })
  unfolding execution_metas signers keys read_only
  metas-IsExecution extra cosigners loader content = record {
    order = simp account_laws;
    signed = simp account_laws;
    written = simp account_laws;
  }

  instruction-IsExecution :
      (extra : List P) (loader : P) (content : Bytes)
      → IsExecution five extra [] operator (record {
        program_id = loader;
        data_bytes = content;
        accounts =
            execution_metas holder operator treasury balance system ++ additional_metas extra;
      })
  unfolding execution_metas signers keys read_only
  instruction-IsExecution extra loader content = record {
    order = simp account_laws;
    signed = simp account_laws;
    written = simp account_laws;
  }

  pub from_instruction-IsExecution :
      (loader : P) (buffer message : Bytes) (extra : List P) (tag : ℕ)
      → (i : Instruction P)
      → make_execute_trx_from_instruction operator balance holder loader treasury buffer message
          extra system tag
        ≡ ok i
      → IsExecution five extra [] operator i
  unfolding make_execute_trx_from_instruction
  from_instruction-IsExecution loader buffer message extra tag =
      IfReturns-bind _ (byte_of tag) _
        λ head. IfReturns-ok _ _ (instruction-IsExecution extra loader _)

  -- If the instruction is built, its accounts are the holder, the operator, the treasury, the
  -- operator's balance and the system program, then the additional accounts, then the additional
  -- signers, all writable; the operator and the additional signers sign, and nobody else.
  pub from_account-IsExecution :
      (loader : P) (buffer : Bytes) (extra cosigners : List P) (tag : ℕ)
      → (i : Instruction P)
      → make_execute_trx_from_account operator balance loader holder treasury buffer extra cosigners
          system tag
        ≡ ok i
      → IsExecution five extra cosigners operator i
  unfolding make_execute_trx_from_account
  from_account-IsExecution loader buffer extra cosigners tag =
      IfReturns-bind _ (byte_of tag) _
        λ head. IfReturns-ok _ _ (metas-IsExecution extra cosigners loader _)

  pub step_from_account-IsExecution :
      (index steps treasury_index : ℕ) (loader : P) (buffer : Bytes) (extra : List P) (tag : ℕ)
      → (i : Instruction P)
      → make_execute_trx_from_account_data_iterative_or_continue index steps operator balance loader
          holder
          (record { index = treasury_index; account = treasury; buffer = buffer })
          extra
          system
          tag
        ≡ ok i
      → IsExecution five extra [] operator i
  unfolding make_execute_trx_from_account_data_iterative_or_continue
  step_from_account-IsExecution index steps treasury_index loader buffer extra tag =
      IfReturns-bind _ (to_bytes_little 1 tag) _ λ head.
        IfReturns-bind _ (to_bytes_little 4 steps) _ λ count.
          IfReturns-bind _ (to_bytes_little 4 index) _
            λ number. IfReturns-ok _ _ (instruction-IsExecution extra loader _)

  -- If the step is built, its accounts are the storage account, the operator, the treasury, the
  -- operator's balance and the system program, then the additional accounts, all writable; the
  -- operator signs, and nobody else.
  pub step_from_instruction-IsExecution :
      (index steps treasury_index : ℕ) (loader : P) (buffer instruction : Bytes) (extra : List P)
      (tag : ℕ)
      → (i : Instruction P)
      → make_partial_call_or_continue_from_raw_ethereum_tx index steps instruction operator balance
          loader holder
          (record { index = treasury_index; account = treasury; buffer = buffer })
          extra
          system
          tag
        ≡ ok i
      → IsExecution five extra [] operator i
  unfolding make_partial_call_or_continue_from_raw_ethereum_tx
  step_from_instruction-IsExecution index steps treasury_index loader buffer instruction extra tag =
      IfReturns-bind _ (byte_of tag) _ λ head. IfReturns-bind _ (to_bytes_little 4 steps) _ λ count.
        IfReturns-bind _ (to_bytes_little 4 index) _
          λ number. IfReturns-ok _ _ (instruction-IsExecution extra loader _)
