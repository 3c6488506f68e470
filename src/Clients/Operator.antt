-- ===== src/Clients/Operator.antt =====
-- utils/operator.py: the balances of an operator. The keys of the operator, the answers of the node and
-- the layout of the balance account are given.
use neon_tests.Prelude.{ℕ, ◌+◌, [], ◌∷◌, List}
use neon_tests.Py.{Result, ok, ◌>>=◌, map_result}
use neon_tests.Py.Bytes.{Bytes, to_bytes_big, from_little}

abbrev pub sum : List ℕ → ℕ
sum [] = 0
sum (n ∷ ns) = n + sum ns

-- The files of a directory, each with a secret key.
pub get_operator_keypairs : {F K : Type 0} (keypair : F → Result K) → List F → Result (List K)
get_operator_keypairs keypair files = map_result keypair files

module _ {Key Pub : Type 0} (pubkey : Key → Pub) (key_bytes : Pub → Bytes) (ether_of : Key → Bytes)
    (find_program_address : List Bytes → Pub → Pub) where
  -- The seeds: the version, the operator's key and its Ethereum address, and the chain id in 32 bytes.
  unfoldable pub get_operator_balance_account :
      (evm_loader : Pub) → Key → (chain_id : ℕ) → Result Pub
  unfolding to_bytes_big
  get_operator_balance_account evm_loader operator chain_id = do
    chain ← to_bytes_big chain_id 32
    ok (
        find_program_address
          ((3 ∷ []) ∷ key_bytes (pubkey operator) ∷ ether_of operator ∷ chain ∷ []) evm_loader)

  pub get_solana_balance : (get_balance : Pub → Result ℕ) → List Key → Result ℕ
  get_solana_balance get_balance keypairs = do
    balances ← map_result (λ k. get_balance (pubkey k)) keypairs
    ok (sum balances)

  -- `balance_field` is the field of the layout, as bytes.
  unfoldable pub token_amount :
      (data_of : Pub → Result Bytes) (balance_field : Bytes → Result Bytes)
      → Pub
      → ℕ
      → Key
      → Result ℕ
  unfolding get_operator_balance_account from_little
  token_amount data_of balance_field evm_loader chain_id operator = do
    token_addr ← get_operator_balance_account evm_loader operator chain_id
    info ← data_of token_addr
    balance ← balance_field info
    ok (from_little balance)

  pub get_token_balance :
      (data_of : Pub → Result Bytes) (balance_field : Bytes → Result Bytes)
      → Pub
      → ℕ
      → List Key
      → Result ℕ
  unfolding token_amount
  get_token_balance data_of balance_field evm_loader chain_id keypairs = do
    balances ← map_result (token_amount data_of balance_field evm_loader chain_id) keypairs
    ok (sum balances)
