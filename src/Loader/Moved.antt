-- ===== src/Loader/Moved.antt =====
-- Examples for the deposits; the keys are numbers.
use neon_tests.Prelude.{
  ℕ, ◌+◌, ◌*◌, ◌≡◌, refl, [], ◌∷◌, ◌++◌, List, none, some, length, true, false,
}
use neon_tests.Prelude.Text.{codes}
use neon_tests.Py.{ok}
use neon_tests.Py.Bytes.{Bytes, to_bytes_little, to_bytes_big}
use neon_tests.Py.Hex.{from_hex}
use neon_tests.Instr.Defs.{
  meta, Instruction, Programs, make_deposit_v03, make_create_associated_token_idempotent,
}
use neon_tests.Loader.Addresses.{text, raw, ether2bytes, ether2program, ether2balance}
use neon_tests.Loader.Deposits.{
  own, mint_to, approve, TokenTrx, deposit_neon, sent_token_from_solana_to_neon,
}
use neon_tests.Loader.Deposits.Approved.{
  IsApproved, deposit_of, sent_token-IsApproved, deposit_neon-IsApproved,
}

abbrev programs : Programs ℕ
programs = record { system = 1; compute_budget = 2; token = 3; associated_token = 4; rent = 5 }

-- The address that is found for some seeds, and the token account of an owner.
abbrev found : List Bytes → ℕ → ℕ × ℕ
found seeds program = (100 * program + length seeds, 255)

abbrev token_of : ℕ → ℕ → ℕ
token_of owner mint = 1000 * owner + mint

-- The deposit of tokens of the mint 8 by the key 11, to the program 20.
abbrev deposit : Bytes → Instruction ℕ
deposit address = record {
  program_id = 20;
  data_bytes = 0x31 ∷ (address ++ 111 ∷ 0 ∷ 0 ∷ 0 ∷ 0 ∷ 0 ∷ 0 ∷ 0 ∷ []);
  accounts =
      meta 8 false true
      ∷ meta 11008 false true
      ∷ meta 2001008 false true
      ∷ meta 2003 false true
      ∷ meta 2002 false true
      ∷ meta 3 false false
      ∷ meta 11 true true
      ∷ meta 1 false false
      ∷ [];
}

abbrev neon_trx : TokenTrx ℕ
neon_trx = record {
  fee_payer = none;
  steps =
      own (make_create_associated_token_idempotent programs token_of 11 11 8)
      ∷ mint_to 8 11008 12 500
      ∷ approve 11008 2003 11 500
      ∷ own (deposit (7 ∷ 7 ∷ []))
      ∷ [];
  signed_by = 11 ∷ 12 ∷ [];
}

deposited :
    deposit_neon programs found token_of (3 ∷ []) 20 8 12 11 111 (raw (7 ∷ 7 ∷ [])) 500
    ≡ ok neon_trx
unfolding deposit_neon ether2balance ether2program ether2bytes make_deposit_v03 to_bytes_big
    to_bytes_little
deposited = refl

deposit_neon-IsApproved_example :
    (balance : ℕ) × (contract : ℕ × ℕ) × (address : Bytes) × (ether2balance found
        (3 ∷ [])
        20
        (raw (7 ∷ 7 ∷ []))
        111
      ≡ ok balance)
    × (ether2program found (3 ∷ []) 20 (raw (7 ∷ 7 ∷ [])) ≡ ok contract)
    × (ether2bytes (raw (7 ∷ 7 ∷ [])) ≡ ok address)
    × (neon_trx.signed_by ≡ 11 ∷ 12 ∷ [])
    × IsApproved programs 20
        (deposit_of programs found token_of (3 ∷ []) 20 address 111 8 balance contract.0 11)
        500
        (own (make_create_associated_token_idempotent programs token_of 11 11 8)
          ∷ mint_to 8 11008 12 500
          ∷ [])
        neon_trx
deposit_neon-IsApproved_example =
    deposit_neon-IsApproved programs found token_of (3 ∷ []) 20 8 12 11 111 (raw (7 ∷ 7 ∷ [])) 500
      neon_trx deposited

abbrev token_trx : TokenTrx ℕ
token_trx = record {
  fee_payer = some 11;
  steps = approve 11008 2003 11 500 ∷ own (deposit (0x0A ∷ [])) ∷ [];
  signed_by = 11 ∷ [];
}

transferred :
    sent_token_from_solana_to_neon programs found token_of (3 ∷ []) 20 11 8 (codes "0x0a") 500 111
    ≡ ok token_trx
unfolding sent_token_from_solana_to_neon ether2balance ether2program ether2bytes make_deposit_v03
    from_hex to_bytes_big to_bytes_little
transferred = refl

sent_token-IsApproved_example :
    (balance : ℕ) × (contract : ℕ × ℕ) × (bytes : Bytes) × (ether2balance found
        (3 ∷ [])
        20
        (text (codes "0x0a"))
        111
      ≡ ok balance)
    × (ether2program found (3 ∷ []) 20 (text (codes "0x0a")) ≡ ok contract)
    × (from_hex (codes "0a") ≡ ok bytes)
    × (token_trx.fee_payer ≡ some 11)
    × (token_trx.signed_by ≡ 11 ∷ [])
    × IsApproved programs 20
        (deposit_of programs found token_of (3 ∷ []) 20 bytes 111 8 balance contract.0 11)
        500
        []
        token_trx
sent_token-IsApproved_example =
    sent_token-IsApproved programs found token_of (3 ∷ []) 20 11 8 (codes "0x0a") 500 111 token_trx
      transferred
