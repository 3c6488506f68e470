-- ===== src/Instr/Defs.antt =====
-- The instruction builders of utils/instructions.py.
use neon_tests.Prelude.{ℕ, [], ◌∷◌, ◌++◌, List, Bool, true, false, ltb, if◌then◌else◌, length}
use neon_tests.Py.{Result, ok, err, ◌>>=◌, value_error}
use neon_tests.Py.Bytes.{Bytes, to_bytes_little}

-- `AccountMeta` and `Instruction` of the Solana library.
pub record AccountMeta (P : Type 0) : Type 0 where
  pub pubkey : P
  pub is_signer : Bool
  pub is_writable : Bool

pub record Instruction (P : Type 0) : Type 0 where
  pub program_id : P
  pub data_bytes : Bytes
  pub accounts : List (AccountMeta P)

-- The constants of the Solana libraries.
pub record Programs (P : Type 0) : Type 0 where
  pub system : P
  pub compute_budget : P
  pub token : P
  pub associated_token : P
  pub rent : P

-- `TreasuryPool` of utils/types.py.
pub record TreasuryPool (P : Type 0) : Type 0 where
  pub index : ℕ
  pub account : P
  pub buffer : Bytes

-- `bytes([tag])`
unfoldable pub byte_of : ℕ → Result Bytes
byte_of tag = if ltb tag 256 then ok (tag ∷ []) else err value_error

module _ {P : Type 0} where
  abbrev pub meta : P → Bool → Bool → AccountMeta P
  meta key signer writable = record { pubkey = key; is_signer = signer; is_writable = writable }

  -- `for acc in additional_accounts: accounts.append(AccountMeta(acc, False, True))`
  unfoldable pub additional_metas : List P → List (AccountMeta P)
  additional_metas [] = []
  additional_metas (acc ∷ accs) = meta acc false true ∷ additional_metas accs

  unfoldable pub signer_metas : List P → List (AccountMeta P)
  signer_metas [] = []
  signer_metas (acc ∷ accs) = meta acc true true ∷ signer_metas accs

  unfoldable pub make_write_holder : P → P → P → Bytes → ℕ → Bytes → Result (Instruction P)
  make_write_holder operator loader holder hash offset payload = do
    at ← to_bytes_little 8 offset
    ok (record {
      program_id = loader;
      data_bytes = 0x26 ∷ (hash ++ (at ++ payload));
      accounts = meta holder false true ∷ meta operator true false ∷ [];
    })

  -- The five accounts with which every execution begins.
  unfoldable pub execution_metas : P → P → P → P → P → List (AccountMeta P)
  execution_metas holder operator treasury balance system =
      meta holder false true
      ∷ meta operator true true
      ∷ meta treasury false true
      ∷ meta balance false true
      ∷ meta system false true
      ∷ []

  unfoldable pub make_execute_trx_from_instruction :
      P → P → P → P → P → Bytes → Bytes → List P → P → ℕ → Result (Instruction P)
  unfolding byte_of execution_metas additional_metas
  make_execute_trx_from_instruction operator balance holder loader treasury buffer message extra
        system tag =
      do
        head ← byte_of tag
        ok (record {
          program_id = loader;
          data_bytes = head ++ (buffer ++ message);
          accounts =
              execution_metas holder operator treasury balance system ++ additional_metas extra;
        })

  unfoldable pub make_execute_trx_from_account :
      P → P → P → P → P → Bytes → List P → List P → P → ℕ → Result (Instruction P)
  unfolding byte_of execution_metas additional_metas signer_metas
  make_execute_trx_from_account operator balance loader holder treasury buffer extra signers system
        tag =
      do
        head ← byte_of tag
        ok (record {
          program_id = loader;
          data_bytes = head ++ buffer;
          accounts =
              execution_metas holder operator treasury balance system
              ++ (additional_metas extra ++ signer_metas signers);
        })

  -- `tag.to_bytes(1, "little")` here, `bytes([tag])` in the next.
  unfoldable pub make_execute_trx_from_account_data_iterative_or_continue :
      ℕ → ℕ → P → P → P → P → TreasuryPool P → List P → P → ℕ → Result (Instruction P)
  unfolding execution_metas additional_metas
  make_execute_trx_from_account_data_iterative_or_continue index steps operator balance loader
        holder treasury extra system tag =
      do
        head ← to_bytes_little 1 tag
        count ← to_bytes_little 4 steps
        number ← to_bytes_little 4 index
        ok (record {
          program_id = loader;
          data_bytes = head ++ (treasury.buffer ++ (count ++ number));
          accounts =
              execution_metas holder operator treasury.account balance system
              ++ additional_metas extra;
        })

  unfoldable pub make_partial_call_or_continue_from_raw_ethereum_tx :
      ℕ → ℕ → Bytes → P → P → P → P → TreasuryPool P → List P → P → ℕ → Result (Instruction P)
  unfolding byte_of execution_metas additional_metas
  make_partial_call_or_continue_from_raw_ethereum_tx index steps instruction operator balance loader
        storage treasury extra system tag =
      do
        head ← byte_of tag
        count ← to_bytes_little 4 steps
        number ← to_bytes_little 4 index
        ok (record {
          program_id = loader;
          data_bytes = head ++ (treasury.buffer ++ (count ++ (number ++ instruction)));
          accounts =
              execution_metas storage operator treasury.account balance system
              ++ additional_metas extra;
        })

  unfoldable pub make_cancel : P → P → P → P → Bytes → List P → Instruction P
  unfolding additional_metas
  make_cancel loader storage operator balance hash extra = record {
    program_id = loader;
    data_bytes = 0x37 ∷ hash;
    accounts =
        meta storage false true
        ∷ meta operator true true
        ∷ meta balance false true
        ∷ additional_metas extra;
  }

  unfoldable pub make_deposit_v03 :
      Programs P → Bytes → ℕ → P → P → P → P → P → P → P → P → Result (Instruction P)
  make_deposit_v03 programs ether chain balance contract mint source pool token operator loader = do
    chain' ← to_bytes_little 8 chain
    ok (record {
      program_id = loader;
      data_bytes = 0x31 ∷ (ether ++ chain');
      accounts =
          meta mint false true
          ∷ meta source false true
          ∷ meta pool false true
          ∷ meta balance false true
          ∷ meta contract false true
          ∷ meta token false false
          ∷ meta operator true true
          ∷ meta programs.system false false
          ∷ [];
    })

  -- `get_associated_token_address` is the library's.
  unfoldable pub make_create_associated_token_idempotent :
      Programs P → (P → P → P) → P → P → P → Instruction P
  make_create_associated_token_idempotent programs get_associated_token_address payer owner mint =
      record {
        program_id = programs.associated_token;
        data_bytes = 1 ∷ [];
        accounts =
            meta payer true true
            ∷ meta (get_associated_token_address owner mint) false true
            ∷ meta owner false false
            ∷ meta mint false false
            ∷ meta programs.system false false
            ∷ meta programs.token false false
            ∷ meta programs.rent false false
            ∷ [];
      }

  unfoldable pub make_create_balance_account :
      Programs P → P → P → Bytes → P → P → ℕ → Result (Instruction P)
  make_create_balance_account programs loader sender ether account contract chain = do
    chain' ← to_bytes_little 8 chain
    ok (record {
      program_id = loader;
      data_bytes = 0x30 ∷ (ether ++ chain');
      accounts =
          meta sender true true
          ∷ meta programs.system false false
          ∷ meta account false true
          ∷ meta contract false true
          ∷ [];
    })

  unfoldable pub make_sync_native : Programs P → P → Instruction P
  make_sync_native programs account = record {
    program_id = programs.token;
    data_bytes = 0x11 ∷ [];
    accounts = meta account false true ∷ [];
  }

  unfoldable pub make_create_holder_account : P → P → Bytes → P → Result (Instruction P)
  make_create_holder_account account operator seed loader = do
    size ← to_bytes_little 8 (length seed)
    ok (record {
      program_id = loader;
      data_bytes = 0x24 ∷ (size ++ seed);
      accounts = meta account false true ∷ meta operator true false ∷ [];
    })

  unfoldable pub make_operator_balance_account :
      Programs P → P → P → Bytes → ℕ → P → Result (List (Instruction P))
  make_operator_balance_account programs operator balance ether chain loader = do
    chain' ← to_bytes_little 8 chain
    ok (
        record {
          program_id = loader;
          data_bytes = 0x3A ∷ (ether ++ chain');
          accounts =
              meta operator true true
              ∷ meta programs.system false true
              ∷ meta balance false true
              ∷ [];
        }
        ∷ [])
