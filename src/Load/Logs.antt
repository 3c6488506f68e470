-- ===== src/Load/Logs.antt =====
-- The tasks of loadtesting/tracerapi/locustfile.py for logs and for calls of a contract.
use neon_tests.Prelude.{
  ℕ, [], ◌∷◌, List, Option, none, some, if◌then◌else◌, not, any, all, Bool, true, false,
}
use neon_tests.Prelude.Text.{Text, codes, text_eq}
use neon_tests.Prelude.Dict.{Dict}
use neon_tests.Py.{
  Result, ok, err, or_raise, ◌>>=◌, ◌>>◌, guard, index_error, type_error, assertion_error,
  attribute_error,
}
use neon_tests.Load.Tracer.{
  ContractInfo, Stored, History, BlockKey, by_hash, by_number, key_name, block_of, Param, fields,
  Answer, result_of, get_random_transaction,
}

-- A log of an answer.
pub record LogEntry : Type 0 where
  pub block_hash : Text
  pub block_number : Text
  pub address : Text

abbrev pub entry_block : BlockKey → LogEntry → Text
entry_block by_hash l = l.block_hash
entry_block by_number l = l.block_number

abbrev pub head : List LogEntry → Result LogEntry
head [] = err index_error
head (l ∷ ls) = ok l

-- An index into the text that stands for no contract is an error.
abbrev pub contract_of : Stored → Result ContractInfo
contract_of t = or_raise t.contract type_error

module _ (lower : Text → Text) where
  -- The block number is compared with the first log alone, the hash with any of them.
  abbrev pub assert_block : BlockKey → Stored → List LogEntry → Result (Unit {0})
  assert_block by_number t ls = do
    l ← head ls
    guard (text_eq (lower t.block_number) l.block_number) assertion_error
  assert_block by_hash t ls =
      guard (any (λ l. text_eq (lower t.block_hash) l.block_hash) ls) assertion_error

  -- An index into a contract is read for every log, so that of no contract fails with the first.
  abbrev pub assert_addresses : Stored → List LogEntry → Result (Unit {0})
  assert_addresses t [] = ok tt
  assert_addresses t (l ∷ ls) = do
    contract ← contract_of t
    guard (all (λ m. text_eq (lower contract.address) m.address) (l ∷ ls)) assertion_error

  unfoldable pub assert_results : BlockKey → Stored → List LogEntry → Result (Unit {0})
  assert_results block t ls = assert_block block t ls >> assert_addresses t ls

  abbrev pub log_filter : BlockKey → ContractInfo → Stored → Dict Text
  log_filter by_number c t =
      (codes "address", c.address)
      ∷ (codes "toBlock", t.block_number)
      ∷ (codes "fromBlock", t.block_number)
      ∷ []
  log_filter by_hash c t = (codes "address", c.address) ∷ (codes "blockhash", t.block_hash) ∷ []

  pub logs_call :
      History
      → (Text → BlockKey → List Param → Option (Answer (List LogEntry)))
      → ℕ
      → ℕ
      → Text
      → BlockKey
      → Result (Option (Answer (List LogEntry)))
  unfolding get_random_transaction assert_results
  logs_call history send_rpc i j method block = do
    c ← get_random_transaction history i j method
    contract ← contract_of c.trx
    let response = send_rpc method block (fields (log_filter block contract c.trx) ∷ [])
    logs ← result_of response
    assert_results block c.trx logs >> ok response

-- The class of the tasks that call a contract: whether it was set up, and the contract.
pub record CallClass (C : Type 0) : Type 0 where
  pub deployed : Bool
  pub contract : Option C

-- The fields of a transaction that the library builds.
pub record Built : Type 0 where
  pub value : Text
  pub gas : Text
  pub gas_price : Text
  pub content : Text

module _ {C : Type 0} (history : History) (contract_at : ContractInfo → Option C) where
  abbrev pub stored_contract : Option C → CallClass C → CallClass C
  stored_contract none s = record s { deployed = false }
  stored_contract (some c) s = record s { contract = some c }

  abbrev pub after_choice : CallClass C → Result ContractInfo → CallClass C × Result (Unit {0})
  after_choice s (err e) = (s, err e)
  after_choice s (ok i) = (stored_contract (contract_at i) s, ok tt)

  -- The flag is set before anything can fail.
  pub deploy_contract : ℕ → ℕ → CallClass C → CallClass C × Result (Unit {0})
  unfolding get_random_transaction
  deploy_contract i j s =
      after_choice (record s { deployed = true })
        (do c ← get_random_transaction history i j (codes "eth_call"); contract_of c.trx)

  -- The part of `on_start` that is the class's own.
  pub call_on_start : ℕ → ℕ → CallClass C → CallClass C × Result (Unit {0})
  unfolding deploy_contract
  call_on_start i j s = if s.deployed then (s, ok tt) else deploy_contract i j s

  -- The object of a call of `retrieve`, whose numbers are printed by `hex`.
  pub eth_call :
      (C → Text → Built)
      → (Text → BlockKey → List Param → Option (Answer Text))
      → ℕ
      → ℕ
      → BlockKey
      → CallClass C
      → Result (Option (Answer Text))
  unfolding get_random_transaction
  eth_call build send_rpc i j block s = do
    contract ← or_raise s.contract attribute_error
    c ← get_random_transaction history i j (codes "eth_call")
    let tx = build contract c.sender
    ok (
        send_rpc (codes "eth_call") block (
          fields (
            (codes "from", c.sender)
            ∷ (codes "to", c.trx.to)
            ∷ (codes "value", tx.value)
            ∷ (codes "gas", tx.gas)
            ∷ (codes "gasPrice", tx.gas_price)
            ∷ (codes "data", tx.content)
            ∷ [])
          ∷ fields ((key_name block, block_of block c.trx) ∷ [])
          ∷ []))

  pub task_eth_call :
      (C → Text → Built)
      → (Text → BlockKey → List Param → Option (Answer Text))
      → ℕ
      → ℕ
      → BlockKey
      → CallClass C
      → Result (Unit {0})
  unfolding eth_call
  task_eth_call build send_rpc i j block s = do
    response ← eth_call build send_rpc i j block s
    result ← result_of response
    guard (not (text_eq result (codes "0x0"))) assertion_error
