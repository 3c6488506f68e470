-- ===== src/Clients/Solana.antt =====
-- The rest of `SolanaClient` of utils/solana_client.py, and of its polling in utils/tracer_client.py.
-- What the node answers is given, and so is how the polling of the library ends.
use neon_tests.Prelude.{
  ℕ, zero, suc, [], ◌∷◌, ◌++◌, List, Option, none, some, drop, replicate, if◌then◌else◌, Bool, true,
  false,
}
use neon_tests.Prelude.Text.{Text, codes, starts_with}
use neon_tests.Py.{Result, ok, err, ◌>>=◌, ◌>>◌, guard, assertion_error}
use neon_tests.Py.Bytes.{Bytes}
use neon_tests.Py.Hex.{from_hex}

-- `0x` at the start, if it is there.
abbrev pub without_prefix : Text → Text
without_prefix t = if starts_with t (codes "0x") then drop 2 t else t

-- The seeds are those of the account version, the word `AUTH`, the token and the padded account.
module _ (version : Bytes) {Key : Type 0} (find_program_address : List Bytes → Key → Key) where
  pub get_erc_auth_address : Text → Text → Key → Result Key
  unfolding starts_with from_hex
  get_erc_auth_address neon_account token evm_loader = do
    account ← from_hex (drop 2 neon_account)
    token_bytes ← from_hex (without_prefix token)
    ok (
        find_program_address
          (version ∷ codes "AUTH" ∷ token_bytes ∷ (replicate 12 0 ++ account) ∷ []) evm_loader)

-- The answer to the question for an account: an exception is printed, and gives `None`.
unfoldable pub account_exists : {A : Type 0} → Result (Option A) → Option Bool
account_exists (err e) = none
account_exists (ok none) = some false
account_exists (ok (some a)) = some true

-- What a call of the client sends, in order.
pub data Sent (Key : Type 0) : Type 0 where
  transfer : (from to : Key) (lamports : ℕ) → Sent Key
  account_created : (payer account : Key) (lamports space : ℕ) (owner : Key) → Sent Key
  mint_created : (payer authority : Key) (decimals : ℕ) → Sent Key
  token_account_created : (owner : Key) → Sent Key
  minted : (dest authority : Key) (amount : ℕ) → Sent Key

-- A transaction whose sending gives a signature, and whether its confirmed status is `Ok`.
unfoldable pub send_tx_and_check_status_ok :
    {S : Type 0} (signature : Result S) (status_ok : S → Bool) → Result (Unit {0})
send_tx_and_check_status_ok signature status_ok = do
  sig ← signature
  guard (status_ok sig) assertion_error

pub send_sol :
    {Key S : Type 0} (send : Sent Key → Result S) (status_ok : S → Bool)
    → Key
    → Key
    → ℕ
    → Result (Unit {0})
unfolding send_tx_and_check_status_ok
send_sol send status_ok from to amount_lamports =
    send_tx_and_check_status_ok (send (transfer from to amount_lamports)) status_ok

-- The transaction that was sent is confirmed, and then read.
unfoldable pub send_tx :
    {S T : Type 0} (signature : Result S) (confirm : S → Result (Unit {0}))
    (get_transaction : S → Result T)
    → Result T
send_tx signature confirm get_transaction = do sig ← signature; confirm sig; get_transaction sig

-- `lamports or self.get_minimum_balance_for_rent_exemption(size).value`
abbrev pub or_rent : ℕ → Option ℕ → ℕ
or_rent rent none = rent
or_rent rent (some zero) = rent
or_rent rent (some (suc n)) = suc n

abbrev pub or_fresh : {Key : Type 0} → Key → Option Key → Key
or_fresh fresh none = fresh
or_fresh fresh (some k) = k

pub create_account :
    {Key S T : Type 0} (send : Sent Key → Result S) (confirm : S → Result (Unit {0}))
    (get_transaction : S → Result T) (rent : ℕ → ℕ) (fresh : Key)
    → Key
    → ℕ
    → Key
    → Option Key
    → Option ℕ
    → Result Key
unfolding send_tx
create_account send confirm get_transaction rent fresh payer size owner account lamports = do
  let key = or_fresh fresh account
  let instr = account_created payer key (or_rent (rent size) lamports) size owner
  _ ← send_tx (send instr) confirm get_transaction
  ok key

-- The mint of a new token, whose owner gets the whole amount.
pub create_spl : {Key : Type 0} → Key → (decimals : ℕ) → List (Sent Key)
create_spl owner decimals =
    mint_created owner owner decimals
    ∷ token_account_created owner
    ∷ minted owner owner 1000000000000000
    ∷ []

-- Whether the polling ended before its time, and the transaction as it is read afterwards.
pub wait_transaction : {T : Type 0} (found : Bool) (get_transaction : Result T) → Result (Option T)
wait_transaction false get_transaction = ok none
wait_transaction true get_transaction = do t ← get_transaction; ok (some t)

-- `send_rpc_and_wait_response` of the tracer's client: the polling, which may raise, and a last call.
pub send_rpc_and_wait_response :
    {A : Type 0} (waited : Result (Unit {0})) (send_rpc : Result A) → Result A
send_rpc_and_wait_response waited send_rpc = waited >> send_rpc
