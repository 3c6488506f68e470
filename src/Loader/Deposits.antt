-- ===== src/Loader/Deposits.antt =====
-- The transactions of utils/evm_loader.py that make balance accounts and move tokens from Solana to
-- Neon. The instructions of the token and the system program are the libraries', with the parameters
-- the code gives them. A key pair stands for its public key.
pub mod Approved
use neon_tests.Prelude.{
  ℕ, zero, suc, ◌+◌, ◌==◌, [], ◌∷◌, ◌++◌, List, Option, none, some, drop, if◌then◌else◌, map, Bool,
  true, false,
}
use neon_tests.Prelude.Text.{Text, codes}
use neon_tests.Py.{Result, ok, err, ◌>>=◌}
use neon_tests.Py.Bytes.{Bytes}
use neon_tests.Py.Hex.{from_hex}
use neon_tests.Instr.Defs.{
  Instruction, Programs, make_deposit_v03, make_create_associated_token_idempotent,
  make_create_balance_account, make_sync_native, make_operator_balance_account,
}
use neon_tests.Loader.Addresses.{
  Ether, text, raw, ether2bytes, ether2program, ether2balance, ether2operator_balance,
}

-- An instruction of a transaction.
pub data Step (P : Type 0) : Type 0 where
  own : Instruction P → Step P
  -- mint, destination, authority and amount
  mint_to : P → P → P → ℕ → Step P
  -- source, delegate, owner and amount
  approve : P → P → P → ℕ → Step P
  -- from, to and lamports
  transfer : P → P → ℕ → Step P
  -- payer, owner and mint
  create_associated_token_account : P → P → P → Step P

pub record TokenTrx (P : Type 0) : Type 0 where
  pub fee_payer : Option P
  pub steps : List (Step P)
  pub signed_by : List P

-- The public parts of a new user.
pub record Caller (P : Type 0) : Type 0 where
  pub solana_account_address : P
  pub solana_address : P
  pub balance_account_address : P
  pub eth_address : Bytes
  pub token_address : P

module _ {P : Type 0} (programs : Programs P) (find_program_address : List Bytes → P → P × ℕ)
    (get_associated_token_address : P → P → P) (seed_version : Bytes) (loader : P) where
  unfoldable pub create_balance_account : Ether → P → ℕ → Result (TokenTrx P × P)
  unfolding ether2balance ether2program ether2bytes
  create_balance_account ether sender chain_id = do
    account ← ether2balance find_program_address seed_version loader ether chain_id
    contract ← ether2program find_program_address seed_version loader ether
    address ← ether2bytes ether
    i ← make_create_balance_account programs loader sender address account contract.0 chain_id
    ok (record { fee_payer = none; steps = own i ∷ []; signed_by = sender ∷ [] }, account)

  -- The account of the program that tokens are moved to.
  abbrev pub pool_of : P → P
  pool_of mint =
      get_associated_token_address (find_program_address (codes "Deposit" ∷ []) loader).0 mint

  unfoldable pub deposit_neon :
      (neon_mint mint_authority operator : P) (chain_id : ℕ) → Ether → ℕ → Result (TokenTrx P)
  unfolding ether2balance ether2program ether2bytes
  deposit_neon neon_mint mint_authority operator chain_id ether amount = do
    balance ← ether2balance find_program_address seed_version loader ether chain_id
    contract ← ether2program find_program_address seed_version loader ether
    let token = get_associated_token_address operator neon_mint
    address ← ether2bytes ether
    deposit ←
        make_deposit_v03 programs address chain_id balance contract.0 neon_mint token
          (pool_of neon_mint) programs.token operator loader
    ok (record {
      fee_payer = none;
      steps =
          own (
            make_create_associated_token_idempotent programs get_associated_token_address operator
              operator neon_mint)
          ∷ mint_to neon_mint token mint_authority amount
          ∷ approve token balance operator amount
          ∷ own deposit
          ∷ [];
      signed_by = operator ∷ mint_authority ∷ [];
    })

  -- The address of a Neon account is a text.
  unfoldable pub sent_token_from_solana_to_neon : P → P → Text → ℕ → ℕ → Result (TokenTrx P)
  unfolding ether2balance ether2program
  sent_token_from_solana_to_neon solana_account mint address amount chain_id = do
    balance ← ether2balance find_program_address seed_version loader (text address) chain_id
    contract ← ether2program find_program_address seed_version loader (text address)
    let token = get_associated_token_address solana_account mint
    address_bytes ← from_hex (drop 2 address)
    deposit ←
        make_deposit_v03 programs address_bytes chain_id balance contract.0 mint token
          (pool_of mint) programs.token solana_account loader
    ok (record {
      fee_payer = some solana_account;
      steps = approve token balance solana_account amount ∷ own deposit ∷ [];
      signed_by = solana_account ∷ [];
    })

  -- `make_wSOL` of utils/instructions.py
  unfoldable pub make_wsol : ℕ → P → P → TokenTrx P
  make_wsol amount solana_wallet ata_address = record {
    fee_payer = some solana_wallet;
    steps =
        transfer solana_wallet ata_address amount
        ∷ own (make_sync_native programs ata_address)
        ∷ [];
    signed_by = solana_wallet ∷ [];
  }

  -- The token account of an owner is made where it is not there: `account_exists` gives `None` for an
  -- error of the node, which counts as an account that is not there.
  unfoldable pub create_associate_token_acc :
      (exists : P → Option Bool) → P → P → P → List (TokenTrx P)
  create_associate_token_acc exists payer owner mint =
      made (exists (get_associated_token_address owner mint))
    where
      made : Option Bool → List (TokenTrx P)
      made (some true) = []
      made _ =
          record {
            fee_payer = none;
            steps = create_associated_token_account payer owner mint ∷ [];
            signed_by = payer ∷ [];
          }
          ∷ []

  -- `int(0.1 * LAMPORT_PER_SOL)`, for no amount and for 0.
  abbrev pub full_amount_of : Option ℕ → ℕ
  full_amount_of none = 100_000_000
  full_amount_of (some zero) = 100_000_000
  full_amount_of (some (suc n)) = suc n

  -- Some transactions, and one more that may not be built: those that are sent, in order.
  abbrev pub then_sent :
      List (TokenTrx P) → Result (TokenTrx P) → List (TokenTrx P) × Result (Unit {0})
  then_sent before (err e) = (before, err e)
  then_sent before (ok trx) = (before ++ trx ∷ [], ok tt)

  pub deposit_wrapped_sol_from_solana_to_neon :
      (exists : P → Option Bool)
      → P
      → P
      → Text
      → ℕ
      → Option ℕ
      → List (TokenTrx P) × Result (Unit {0})
  unfolding create_associate_token_acc make_wsol sent_token_from_solana_to_neon
  deposit_wrapped_sol_from_solana_to_neon exists wsol solana_account address chain_id full_amount =
      let amount = full_amount_of full_amount in
      let ata = get_associated_token_address solana_account wsol in
      then_sent
        (create_associate_token_acc exists solana_account solana_account wsol
          ++ make_wsol amount solana_account ata ∷ [])
        (sent_token_from_solana_to_neon solana_account wsol address amount chain_id)

  -- `mint_spl_to` of utils/solana_client.py, for a given authority: the account is made where it is
  -- missing, and the tokens are minted to it.
  unfoldable pub mint_spl_to : (exists : P → Option Bool) → P → P → ℕ → P → List (TokenTrx P)
  unfolding create_associate_token_acc
  mint_spl_to exists mint dest amount authority =
      create_associate_token_acc exists dest dest mint
      ++ record {
        fee_payer = some authority;
        steps = mint_to mint (get_associated_token_address dest mint) authority amount ∷ [];
        signed_by = authority ∷ [];
      }
        ∷ []

  pub deposit_neon_like_tokens_from_solana_to_neon :
      (exists : P → Option Bool) → P → P → Text → ℕ → P → ℕ → List (TokenTrx P) × Result (Unit {0})
  unfolding mint_spl_to sent_token_from_solana_to_neon
  deposit_neon_like_tokens_from_solana_to_neon exists mint solana_account address chain_id operator
        amount =
      then_sent (mint_spl_to exists mint solana_account amount operator)
        (sent_token_from_solana_to_neon solana_account mint address amount chain_id)

  pub create_operator_balance_account : (key : Bytes) → P → Ether → ℕ → Result (TokenTrx P)
  unfolding ether2operator_balance ether2bytes
  create_operator_balance_account key operator ether chain_id = do
    account ← ether2operator_balance find_program_address seed_version loader key ether chain_id
    address ← ether2bytes ether
    is ← make_operator_balance_account programs operator account address chain_id loader
    ok (record { fee_payer = none; steps = map own is; signed_by = operator ∷ [] })

  -- The transactions of a new user, whose key and Ethereum address are given, and the user. The
  -- airdrop, for a new key without lamports, is the client's. `balance_of` gives lamports.
  pub make_new_user :
      (balance_of : P → ℕ) (neon_mint sender key : P) (ether : Bytes) (chain_id : ℕ)
      → Result (List (TokenTrx P) × Caller P)
  unfolding create_balance_account ether2program ether2balance
  make_new_user balance_of neon_mint sender key ether chain_id = do
    solana ← ether2program find_program_address seed_version loader (raw ether)
    balance ← ether2balance find_program_address seed_version loader (raw ether) chain_id
    trxs ←
        if balance_of balance == 0
        then (do (trx, account) ← create_balance_account (raw ether) sender chain_id; ok (trx ∷ []))
        else ok []
    ok (
      trxs,
      record {
        solana_account_address = key;
        solana_address = solana.0;
        balance_account_address = balance;
        eth_address = ether;
        token_address = get_associated_token_address balance neon_mint;
      },
    )
