-- ===== src/Load/Dump.antt =====
-- loadtesting/tracerapi/prepare_data/locustfile.py: the history of transactions that the tests of the
-- tracer choose from. Balances are printed floating point numbers, and are given as texts.
pub mod Filled
use neon_tests.Prelude.{ℕ, [], ◌∷◌, ◌++◌, List, Option, none, some, Bool, true, false}
use neon_tests.Prelude.Text.{Text, codes}
use neon_tests.Prelude.Dict.{Dict, lookup, put}
use neon_tests.Py.{Result, ok, err, ◌>>=◌, type_error}
use neon_tests.Py.Bytes.{Bytes}
use neon_tests.Py.Hex.{to_hex}
use neon_tests.Py.Number.{hex}
use neon_tests.Load.Tracer.{
  RpcType, logs, store, transfer, type_name, ContractInfo, Stored, History,
}

-- The receipt of a transaction.
pub record Receipt : Type 0 where
  pub sender : Text
  pub to : Text
  pub block_hash : Bytes
  pub block_number : ℕ
  pub contract : Option ContractInfo

abbrev pub Info : Type 0
Info = Dict Text

-- `d[k]` of a `defaultdict`.
abbrev pub or_empty : {A : Type 0} → Option (List A) → List A
or_empty none = []
or_empty (some xs) = xs

-- `transaction_history[attr][account].append(entry)`
unfoldable pub append_stored : Text → Text → Stored → History → History
append_stored attr account entry history =
    let accounts = or_empty (lookup attr history) in
    put attr (put account (or_empty (lookup account accounts) ++ entry ∷ []) accounts) history

-- A hash is printed with `0x` before it.
unfoldable pub stored : Receipt → Info → Stored
unfolding hex
stored tx info = record {
  block_hash = 48 ∷ 120 ∷ to_hex tx.block_hash;
  block_number = hex tx.block_number;
  contract = tx.contract;
  to = tx.to;
  additional_info = info;
}

-- What a decorated task returns: nothing, or a receipt, which may be missing, with an info.
abbrev pub TaskResult : Type 0
TaskResult = Option (Option Receipt × Info)

abbrev pub recorded : RpcType → Option Receipt → Info → History → History
recorded attr none info history = history
recorded attr (some tx) info history =
    append_stored (type_name attr) tx.sender (stored tx info) history

-- The wrapper: nothing cannot be taken apart into two.
unfoldable pub dump_history : RpcType → TaskResult → History → History × Result (Option Receipt)
unfolding append_stored stored
dump_history attr none history = (history, err type_error)
dump_history attr (some (tx, info)) history = (recorded attr tx info history, ok tx)

-- `prepare_data_by_store_int`: the receipt of the storing transaction, with the contract.
abbrev pub store_int : Option (ContractInfo × Receipt) → TaskResult
store_int none = none
store_int (some (contract, receipt)) = some (some (record receipt { contract = some contract }), [])

pub prepare_data_by_store_int :
    Option (ContractInfo × Receipt) → History → History × Result (Option Receipt)
unfolding dump_history
prepare_data_by_store_int contract history = dump_history store (store_int contract) history

-- The balances of the recipient and of the sender.
abbrev pub Balances : Type 0
Balances = Text × Text

unfoldable pub transfer_info : Text → Text → Balances → Balances → Info
transfer_info kind nonce before after =
    (codes "sender_balance_before", before.1)
    ∷ (codes "sender_balance_after", after.1)
    ∷ (codes "sender_nonce", nonce)
    ∷ (codes "recipient_balance_before", before.0)
    ∷ (codes "recipient_balance_after", after.0)
    ∷ (codes "amount", codes "1")
    ∷ (codes "type", kind)
    ∷ []

-- The transfers: the balances are read around the task, which gives the receipt and the nonce.
pub prepare_data_by_neon_transfer :
    Balances → Option Receipt × Text → Balances → History → History × Result (Option Receipt)
unfolding dump_history transfer_info
prepare_data_by_neon_transfer before (tx, nonce) after history =
    dump_history transfer (some (tx, transfer_info (codes "neon") nonce before after)) history

pub prepare_data_by_erc20_transfer :
    Balances → Option Receipt × Text → Balances → History → History × Result (Option Receipt)
unfolding dump_history transfer_info
prepare_data_by_erc20_transfer before (tx, nonce) after history =
    dump_history transfer (some (tx, transfer_info (codes "erc20") nonce before after)) history

pub prepare_data_by_erc20_wrapped :
    Balances → Option Receipt × Text → Balances → History → History × Result (Option Receipt)
unfolding dump_history transfer_info
prepare_data_by_erc20_wrapped before (tx, nonce) after history =
    dump_history logs (some (tx, transfer_info (codes "erc20_spl") nonce before after)) history

-- The class of the stage that stores: whether its contract was deployed, and the contract.
pub record StoreClass : Type 0 where
  pub deployed : Bool
  pub storage_contract : Option ContractInfo

abbrev pub deployed_or : Option ContractInfo → StoreClass → StoreClass
deployed_or none s = record s { deployed = false }
deployed_or (some c) s = record s { storage_contract = some c }

-- The calls before the deployment may raise, which leaves the flag set.
abbrev pub after_deploy : Result (Option ContractInfo) → StoreClass → StoreClass × Result (Unit {0})
after_deploy (err e) s = (s, err e)
after_deploy (ok c) s = (deployed_or c s, ok tt)

pub deploy_storage_contract :
    Result (Option ContractInfo) → StoreClass → StoreClass × Result (Unit {0})
deploy_storage_contract deploy s = after_deploy deploy (record s { deployed = true })

abbrev pub start_if :
    Bool → Result (Option ContractInfo) → StoreClass → StoreClass × Result (Unit {0})
start_if true deploy s = (s, ok tt)
start_if false deploy s = deploy_storage_contract deploy s

pub on_start : Result (Option ContractInfo) → StoreClass → StoreClass × Result (Unit {0})
unfolding deploy_storage_contract
on_start deploy s = start_if s.deployed deploy s
