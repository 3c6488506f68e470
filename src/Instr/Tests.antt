-- ===== src/Instr/Tests.antt =====
-- The theorems on instructions at concrete ones; the keys are numbers.
use neon_tests.Prelude.{ℕ, ◌≡◌, refl, [], ◌∷◌, List, some, arith, true, false, replicate, map}
use neon_tests.Py.{ok}
use neon_tests.Py.Bytes.{Bytes}
use neon_tests.Instr.Defs.{
  AccountMeta, Instruction, Programs, TreasuryPool, meta,
  make_partial_call_or_continue_from_raw_ethereum_tx,
}
use neon_tests.Instr.Layout.{read_step, step_from_instruction-read}
use neon_tests.Instr.Serialize.{
  serialize_instruction, read_instruction, raw_meta, read_instruction-serialize,
}

abbrev programs : Programs ℕ
programs = record { system = 1; compute_budget = 2; token = 3; associated_token = 4; rent = 5 }

abbrev treasury : TreasuryPool ℕ
treasury = record { index = 7; account = 13; buffer = 7 ∷ 0 ∷ 0 ∷ 0 ∷ [] }

-- 32 bytes for a key.
abbrev key_of : ℕ → Bytes
key_of n = n ∷ replicate 31 0

abbrev executed : List (AccountMeta ℕ) → Bytes → Instruction ℕ
executed metas content = record {
  program_id = 20;
  data_bytes = content;
  accounts =
      meta 11 false true
      ∷ meta 10 true true
      ∷ meta 13 false true
      ∷ meta 12 false true
      ∷ meta 1 false true
      ∷ metas;
}

step_from_instruction-read_example :
    (i : Instruction ℕ) × (make_partial_call_or_continue_from_raw_ethereum_tx 3 500
        (99 ∷ [])
        10
        12
        20
        11
        treasury
        (30 ∷ [])
        1
        0x34
      ≡ ok i)
    × (read_step i.data_bytes
        ≡ some (record {
          tag = 0x34;
          buffer = treasury.buffer;
          steps = 500;
          index = 3;
          message = 99 ∷ [];
        }))
step_from_instruction-read_example =
    step_from_instruction-read 10 12 20 11 1 treasury (30 ∷ []) 3 500 0x34 (99 ∷ []) refl
      (omega arith) (omega arith) (omega arith)

read_instruction-serialize_example :
    (bs : Bytes) × (serialize_instruction key_of 9 (executed [] (1 ∷ 2 ∷ [])) ≡ ok bs)
    × (read_instruction bs ≡ record {
      program = key_of 9;
      accounts = map (raw_meta key_of (λ n. refl)) (executed [] []).accounts;
      payload = 1 ∷ 2 ∷ [];
    })
read_instruction-serialize_example =
    read_instruction-serialize key_of (λ n. refl) 9 (executed [] (1 ∷ 2 ∷ [])) (omega arith)
      (omega arith)
