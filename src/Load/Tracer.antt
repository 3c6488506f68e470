-- ===== src/Load/Tracer.antt =====
-- The task sets of loadtesting/tracerapi/locustfile.py: how a user starts, and the calls of the tasks.
-- `random.choice` takes the element at a given position, around the end. The session's `send_rpc` is
-- given as what it returns: nothing, where the collector kept an exception. That a chosen transaction
-- gets the account it is stored under as its sender is written to the answer alone, since every
-- choice writes the same.
use neon_tests.Prelude.{
  ℕ, ◌%◌, [], ◌∷◌, ◌++◌, List, Option, none, some, get_elem?, length, if◌then◌else◌, ◌==◌, not, any,
  Bool, false,
}
use neon_tests.Prelude.Int.{ℤ, pos, negsuc}
use neon_tests.Prelude.Text.{Text, codes, text_eq}
use neon_tests.Prelude.Dict.{Dict, lookup, keys}
use neon_tests.Py.{
  Result, ok, err, or_raise, ◌>>=◌, guard, key_error, index_error, type_error, assertion_error,
}
use neon_tests.Py.Number.{int}

-- `RPCType`, in the order of its members.
pub data RpcType : Type 0 where
  logs store transfer : RpcType

abbrev pub methods : RpcType → List Text
methods logs = codes "eth_getLogs" ∷ []
methods store = codes "eth_getStorageAt" ∷ codes "eth_call" ∷ []
methods transfer = codes "eth_getBalance" ∷ codes "eth_getTransactionCount" ∷ []

abbrev pub type_name : RpcType → Text
type_name logs = codes "logs"
type_name store = codes "store"
type_name transfer = codes "transfer"

-- The first member among whose methods the key is.
abbrev pub first_with : Text → List RpcType → Option RpcType
first_with key [] = none
first_with key (t ∷ ts) =
    let next = first_with key ts in if any (text_eq key) (methods t) then some t else next

unfoldable pub get : Text → Result RpcType
get key = or_raise (first_with key (logs ∷ store ∷ transfer ∷ [])) index_error

pub record ContractInfo : Type 0 where
  pub address : Text
  pub abi : Text

-- A transaction of the history. Its contract is an empty text if it has none.
pub record Stored : Type 0 where
  pub block_hash : Text
  pub block_number : Text
  pub contract : Option ContractInfo
  pub to : Text
  pub additional_info : Dict Text

abbrev pub History : Type 0
History = Dict (Dict (List Stored))

-- A transaction with its sender.
pub record Chosen : Type 0 where
  pub trx : Stored
  pub sender : Text

-- `random.choice(xs)`
abbrev pub choice : {A : Type 0} → ℕ → List A → Result A
choice i [] = err index_error
choice i (x ∷ xs) = or_raise (get_elem? (x ∷ xs) (i % length (x ∷ xs))) index_error

-- An entry of a dictionary.
abbrev pub item : {A : Type 0} → Text → Dict A → Result A
item k d = or_raise (lookup k d) key_error

unfoldable pub get_random_transaction : History → ℕ → ℕ → Text → Result Chosen
unfolding get
get_random_transaction history i j key = do
  kind ← get key
  transactions ← item (type_name kind) history
  account ← choice i (keys transactions)
  of_account ← item account transactions
  trx ← choice j of_account
  ok (record { trx = trx; sender = account })

-- `blockHash` or `blockNumber`.
pub data BlockKey : Type 0 where
  by_hash by_number : BlockKey

abbrev pub key_name : BlockKey → Text
key_name by_hash = codes "blockHash"
key_name by_number = codes "blockNumber"

abbrev pub block_of : BlockKey → Stored → Text
block_of by_hash t = t.block_hash
block_of by_number t = t.block_number

-- A parameter of a call: a text, or an object of texts.
pub data Param : Type 0 where
  plain : Text → Param
  fields : Dict Text → Param

-- A decoded answer without an error has a `result`.
pub record Answer (A : Type 0) : Type 0 where
  pub result : Option A

-- `response["result"]`, where the response may be `None`.
abbrev pub result_of : {A : Type 0} → Option (Answer A) → Result A
result_of none = err type_error
result_of (some a) = or_raise a.result key_error

-- The parameters of a call: the account, the other arguments and the block.
unfoldable pub call_params : Text → BlockKey → List Param → Chosen → List Param
call_params method block args c =
    plain (if text_eq method (codes "eth_getTransactionCount") then c.sender else c.trx.to) ∷ args
    ++ fields ((key_name block, block_of block c.trx) ∷ []) ∷ []

module _ (history : History) (send_rpc : Text → BlockKey → List Param → Option (Answer Text)) where
  unfoldable pub do_call :
      ℕ → ℕ → Text → BlockKey → List Param → Result (Option (Answer Text) × Chosen)
  unfolding get_random_transaction call_params
  do_call i j method block args = do
    c ← get_random_transaction history i j method
    ok (send_rpc method block (call_params method block args c), c)

  -- `float(…)`, `float.fromhex(…) / 1e18` and the comparison of two floats are given.
  module _ {F : Type 0} (float : Text → Result F) (from_hex : Text → Result F)
      (close : F → F → Bool) (get_balance : Text → F) where
    abbrev pub check_balance : Text → F → F → Text → Result (Unit {0})
    check_balance kind response expected to =
        guard (close response (if text_eq kind (codes "neon") then expected else get_balance to))
          assertion_error

    pub task_eth_get_balance : ℕ → ℕ → BlockKey → Result (Unit {0})
    unfolding do_call
    task_eth_get_balance i j block = do
      (response, c) ← do_call i j (codes "eth_getBalance") block []
      after ← item (codes "recipient_balance_after") c.trx.additional_info
      expected ← float after
      result ← result_of response
      balance ← from_hex result
      kind ← item (codes "type") c.trx.additional_info
      check_balance kind balance expected c.trx.to

  abbrev pub int_eq : ℤ → ℤ → Bool
  int_eq (pos a) (pos b) = a == b
  int_eq (pos a) (negsuc b) = false
  int_eq (negsuc a) (pos b) = false
  int_eq (negsuc a) (negsuc b) = a == b

  pub task_eth_get_transaction_count : ℕ → ℕ → BlockKey → Result (Unit {0})
  unfolding do_call
  task_eth_get_transaction_count i j block = do
    (response, c) ← do_call i j (codes "eth_getTransactionCount") block []
    result ← result_of response
    count ← int 16 result
    nonce_text ← item (codes "sender_nonce") c.trx.additional_info
    expected ← int 10 nonce_text
    guard (int_eq count expected) assertion_error

  pub task_eth_get_storage_at : ℕ → ℕ → BlockKey → Result (Unit {0})
  unfolding do_call
  task_eth_get_storage_at i j block = do
    (response, c) ← do_call i j (codes "eth_getStorageAt") block (plain (codes "0x0") ∷ [])
    result ← result_of response
    guard (not (text_eq result (codes "0x0"))) assertion_error
