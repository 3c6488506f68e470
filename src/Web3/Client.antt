-- ===== src/Web3/Client.antt =====
-- The other calls of `Web3Client` and `NeonChainWeb3Client` of utils/web3client.py: the properties, the
-- deployment of contracts, and the transfers. What the node and the libraries answer is given.
use neon_tests.Prelude.{
  ℕ, zero, suc, ◌-◌, ◌*◌, ◌^◌, [], ◌∷◌, ◌++◌, List, Option, none, some, leb, ◌==◌, ◌&&◌,
  if◌then◌else◌, Bool,
}
use neon_tests.Prelude.Text.{Text, codes, text_eq, last_piece}
use neon_tests.Py.{Result, ok, err, ◌>>=◌, or_raise, runtime_error, http_error}
use neon_tests.Py.Bytes.{Bytes}
use neon_tests.Web3.{
  Node, TransactionType, is_legacy, default_zero, Setting, LegacyTrx, FeeTrx, make_raw_tx_eip_1559,
  send_tokens_legacy,
}

-- `upper`, of ASCII letters.
abbrev pub upper : Text → Text
upper [] = []
upper (c ∷ cs) = (if leb 97 c && leb c 122 then c - 32 else c) ∷ upper cs

pub native_token_name : (proxy_url : Text) → Text
native_token_name proxy_url =
    let last = last_piece [] proxy_url in
    if text_eq last (codes "solana") then codes "NEON" else upper last

-- The chain id, which is asked for once: with the field `_chain_id` before and after.
unfoldable pub chain_id : (answer : ℕ) → Option ℕ → ℕ × Option ℕ
chain_id answer none = (answer, some answer)
chain_id answer (some n) = (n, some n)

-- A response: whether its status is one of an error, and its content as JSON, if it is that.
pub record Response (A : Type 0) : Type 0 where
  pub failed : Bool
  pub body : Option A

pub get_evm_info : {A : Type 0} → Response A → Result A
get_evm_info r = if r.failed then err http_error else or_raise r.body runtime_error

-- The parameters of the deployment of a contract.
pub record DeployTrx : Type 0 where
  pub sender : Text
  pub gas : ℕ
  pub nonce : ℕ
  pub value : ℕ
  pub chain_id : ℕ
  pub gas_price : Option ℕ

-- A contract that is compiled: its interface, its code, and the arguments of its constructor.
pub record Compiled : Type 0 where
  pub interface : Text
  pub bytecode : Bytes
  pub constructor_args : List ℕ

-- `gas_price or self.gas_price()`
abbrev pub or_price : ℕ → Option ℕ → ℕ
or_price price none = price
or_price price (some zero) = price
or_price price (some (suc n)) = suc n

-- `build_transaction` of the library, the gas that a built transaction has, the estimation, and what
-- happens with the transaction that is signed.
module _ (node : Node) {Built Receipt : Type 0} (build : Compiled → DeployTrx → Result Built)
    (gas_of : Built → ℕ) (with_gas : ℕ → Built → Built) (estimate : Built → Result ℕ)
    (sent : Built → Result Receipt) where
  abbrev pub or_estimated : Built → Result Built
  or_estimated t = if gas_of t == 0 then (do gas ← estimate t; ok (with_gas gas t)) else ok t

  abbrev pub tx_params : Text → ℕ → Option ℕ → ℕ → TransactionType → DeployTrx
  tx_params from gas gas_price value tx_type = record {
    sender = from;
    gas = gas;
    nonce = node.nonce_of from;
    value = value;
    chain_id = node.chain_id;
    gas_price = if is_legacy tx_type then some (or_price node.gas_price gas_price) else none;
  }

  unfoldable pub deploy_contract :
      Text → Compiled → ℕ → Option ℕ → ℕ → TransactionType → Result Receipt
  deploy_contract from contract gas gas_price value tx_type = do
    transaction ← build contract (tx_params from gas gas_price value tx_type)
    complete ← or_estimated transaction
    sent complete

  -- The contract's address from the receipt, with its interface. The interface of the compiler is
  -- given; the type is the one of the enumeration.
  pub deploy_and_get_contract :
      (address_of : Receipt → Text)
      → Result Compiled
      → Text
      → ℕ
      → ℕ
      → TransactionType
      → Result ((Text × Text) × Receipt)
  unfolding deploy_contract
  deploy_and_get_contract address_of interface account gas value tx_type = do
    contract ← interface
    receipt ← deploy_contract account contract gas none value tx_type
    ok ((address_of receipt, contract.interface), receipt)

  -- With every default of `deploy_contract`.
  pub compile_by_vyper_and_deploy :
      (address_of : Receipt → Text) → Result Compiled → Text → Result (Text × Text)
  unfolding deploy_contract
  compile_by_vyper_and_deploy address_of interface account = do
    contract ← interface
    receipt ← deploy_contract account contract 0 none 0 default_zero
    ok (address_of receipt, contract.interface)

-- The bytes of a text in UTF-8, filled up to 32 bytes.
abbrev pub zeros : ℕ → Bytes
zeros zero = []
zeros (suc n) = 0 ∷ zeros n

abbrev pub byte_count : Bytes → ℕ
byte_count [] = 0
byte_count (b ∷ bs) = suc (byte_count bs)

pub text_to_bytes32 : (utf8 : Text → Bytes) → Text → Bytes
text_to_bytes32 utf8 text = utf8 text ++ zeros (32 - byte_count (utf8 text))

-- The transaction that `send_tokens_eip_1559` signs and sends.
pub send_tokens_eip_1559 :
    (node : Node)
    → Text
    → Text
    → Option ℕ
    → Setting
    → Setting
    → Setting
    → Setting
    → Setting
    → Result FeeTrx
unfolding make_raw_tx_eip_1559
send_tokens_eip_1559 node from to value chain_id nonce gas max_priority_fee max_fee =
    make_raw_tx_eip_1559 node chain_id from (some to) value nonce none gas max_priority_fee max_fee

pub calculate_trx_gas : (gas_used gas_price : ℕ) → ℕ
calculate_trx_gas gas_used gas_price = gas_used * gas_price

-- Whole units of the currency in the smallest ones.
unfoldable pub to_atomic_currency : ℕ → ℕ
to_atomic_currency amount = amount * 10 ^ 18

-- The transaction that `send_neon` sends, of the old type.
unfoldable pub send_neon :
    (node : Node) → Text → Text → ℕ → Option ℕ → Option ℕ → Option ℕ → LegacyTrx
unfolding to_atomic_currency send_tokens_legacy
send_neon node from to amount gas gas_price nonce =
    send_tokens_legacy node from (some to) (to_atomic_currency amount) gas gas_price nonce

-- How a new account gets its balance.
pub data Funding : Type 0 where
  transferred : LegacyTrx → Funding
  requested : (address : Text) (amount : ℕ) → Funding

pub create_account_with_balance : (node : Node) (account : Text) → ℕ → Option Text → Text × Funding
unfolding send_neon
create_account_with_balance node account amount none = (account, requested account amount)
create_account_with_balance node account amount (some bank) =
    (account, transferred (send_neon node bank account amount none none none))
