-- ===== src/Loader/Addresses.antt =====
-- The addresses and the account data of utils/evm_loader.py. A public key stands for itself and for its
-- printed form; the search for a program address, with the bump it finds, is the library's, as are the
-- layouts of account data.
use neon_tests.Prelude.{ℕ, [], ◌∷◌, List, Option, ltb, if◌then◌else◌, not, drop, length}
use neon_tests.Prelude.Text.{Text, codes, starts_with}
use neon_tests.Py.{Result, ok, or_raise, ◌>>=◌, ◌>>◌, guard, plain_exception}
use neon_tests.Py.Bytes.{Bytes, from_little, to_bytes_little, to_bytes_big}
use neon_tests.Py.Hex.{to_hex, from_hex}

-- An Ethereum address, as a text or as bytes.
pub data Ether : Type 0 where
  text : Text → Ether
  raw : Bytes → Ether

unfoldable pub ether2bytes : Ether → Result Bytes
unfolding starts_with
ether2bytes (raw b) = ok b
ether2bytes (text t) = if starts_with t (codes "0x") then from_hex (drop 2 t) else from_hex t

pub ether2hex : Ether → Text
unfolding starts_with
ether2hex (raw b) = to_hex b
ether2hex (text t) = if starts_with t (codes "0x") then drop 2 t else t

-- The fields that are read of the layouts.
pub record BalanceAccount : Type 0 where
  pub trx_count : ℕ
  pub balance : Bytes

-- A layout: the size of its data, and how that is parsed.
pub record Layout (A : Type 0) : Type 0 where
  pub sizeof : ℕ
  pub parse : Bytes → Result A

module _ {P : Type 0} (find_program_address : List Bytes → P → P × ℕ) (seed_version : Bytes)
    (loader : P) where
  unfoldable pub ether2program : Ether → Result (P × ℕ)
  unfolding ether2bytes
  ether2program ether = do
    address ← ether2bytes ether
    ok (find_program_address (seed_version ∷ address ∷ []) loader)

  unfoldable pub ether2balance : Ether → ℕ → Result P
  unfolding ether2bytes
  ether2balance ether chain_id = do
    address ← ether2bytes ether
    chain ← to_bytes_big 32 chain_id
    ok (find_program_address (seed_version ∷ address ∷ chain ∷ []) loader).0

  unfoldable pub ether2operator_balance : Bytes → Ether → ℕ → Result P
  unfolding ether2bytes
  ether2operator_balance key ether chain_id = do
    address ← ether2bytes ether
    chain ← to_bytes_big 32 chain_id
    ok (find_program_address (seed_version ∷ key ∷ address ∷ chain ∷ []) loader).0

  pub create_treasury_pool_address : (pool_seed : Bytes) → ℕ → Result P
  create_treasury_pool_address pool_seed pool_index = do
    index ← to_bytes_little 4 pool_index
    ok (find_program_address (pool_seed ∷ index ∷ []) loader).0

  -- What the node knows of an account: its data, if it is there.
  module _ (account_data : P → Option Bytes) where
    unfoldable pub get_solana_account_data : P → ℕ → Result Bytes
    get_solana_account_data account expected_length = do
      content ← or_raise (account_data account) plain_exception
      guard (not (ltb (length content) expected_length)) plain_exception
      ok content

    abbrev pub read_account : {A : Type 0} → Layout A → P → Result A
    read_account layout account = do
      info ← get_solana_account_data account layout.sizeof
      layout.parse info

    pub get_neon_nonce : Layout BalanceAccount → Ether → ℕ → Result ℕ
    unfolding ether2balance get_solana_account_data
    get_neon_nonce layout account chain_id = do
      address ← ether2balance account chain_id
      balance ← read_account layout address
      ok balance.trx_count

    unfoldable pub get_neon_balance : Layout BalanceAccount → Ether → ℕ → Result ℕ
    unfolding ether2balance get_solana_account_data
    get_neon_balance layout account chain_id = do
      address ← ether2balance account chain_id
      balance ← read_account layout address
      ok (from_little balance.balance)

    -- The revision of a contract account or of a storage cell.
    pub get_account_revision : Layout ℕ → P → Result ℕ
    unfolding get_solana_account_data
    get_account_revision layout address = read_account layout address
