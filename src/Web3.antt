-- ===== src/Web3.antt =====
-- The transactions that `Web3Client` of utils/web3client.py makes. An account stands for its address,
-- amounts are whole numbers, and what the node answers is a record of given values. The sum of the
-- automatic maximal fee is one of floating point numbers, and is given.
pub mod Fees
pub mod Client
mod Tests
use neon_tests.Prelude.{
  ℕ, zero, suc, ◌+◌, ◌-◌, [], ◌∷◌, List, Option, none, some, ltb, ◌&&◌, ◌||◌, not, if◌then◌else◌,
  Bool, true, false,
}
use neon_tests.Prelude.Text.{Text}
use neon_tests.Py.{Result, ok, err, ◌>>=◌, ◌>>◌, guard, assertion_error, key_error}
use neon_tests.Py.Bytes.{Bytes}

-- A transaction of the old type, as a dictionary whose keys may be missing.
pub record LegacyTrx : Type 0 where
  pub sender : Text
  pub to : Option Text
  pub value : Option ℕ
  pub content : Option Bytes
  pub nonce : ℕ
  pub chain_id : Option ℕ
  pub gas_price : ℕ
  pub gas : Option ℕ

-- One of the new type, whose `type` is 2.
pub record FeeTrx : Type 0 where
  pub chain_id : Option ℕ
  pub sender : Text
  pub to : Option Text
  pub value : Option ℕ
  pub nonce : Option ℕ
  pub content : Option Bytes
  pub gas : Option ℕ
  pub max_priority_fee : Option ℕ
  pub max_fee : Option ℕ

pub record Node : Type 0 where
  pub chain_id : ℕ
  pub nonce_of : Text → ℕ
  pub gas_price : ℕ
  pub base_fee : ℕ
  pub priority_fee : ℕ
  pub estimate_legacy : LegacyTrx → ℕ
  pub estimate_fee : FeeTrx → ℕ
  -- `int((base_fee_per_gas * base_fee_multiplier) + max_priority_fee_per_gas)`
  pub fee_sum : ℕ → ℕ → ℕ

-- The type of a transaction: the number 0 that is the default, or a member of the enumeration.
pub data TransactionType : Type 0 where
  default_zero : TransactionType
  legacy : TransactionType
  eip_1559 : TransactionType

-- `tx_type is TransactionType.LEGACY`, which holds for the member only.
abbrev pub is_legacy : TransactionType → Bool
is_legacy legacy = true
is_legacy _ = false

-- A transaction of either type.
pub data AnyTrx : Type 0 where
  legacy_trx : LegacyTrx → AnyTrx
  fee_trx : FeeTrx → AnyTrx

-- `None`, `"auto"` or a number.
pub data Setting : Type 0 where
  absent auto : Setting
  given : ℕ → Setting

-- `"auto" if n is None else n`, and `n` itself.
abbrev pub or_auto : Option ℕ → Setting
or_auto none = auto
or_auto (some n) = given n

abbrev pub setting_of : Option ℕ → Setting
setting_of none = absent
setting_of (some n) = given n

-- `if x: transaction[…] = x`
abbrev pub truthy_number : Option ℕ → Option ℕ
truthy_number none = none
truthy_number (some zero) = none
truthy_number (some (suc n)) = some (suc n)

abbrev pub truthy {ℓ} : {A : Type ℓ} → Option (List A) → Option (List A)
truthy none = none
truthy (some []) = none
truthy (some (x ∷ xs)) = some (x ∷ xs)

abbrev pub or_node : ℕ → Option ℕ → ℕ
or_node d none = d
or_node d (some n) = n

abbrev pub is_given : Option ℕ → Bool
is_given none = false
is_given (some n) = true

-- `transaction["gas"] = gas`, if that is not 0.
abbrev pub with_gas : Option ℕ → LegacyTrx → LegacyTrx
with_gas gas t = record {
  sender = t.sender;
  to = t.to;
  value = t.value;
  content = t.content;
  nonce = t.nonce;
  chain_id = t.chain_id;
  gas_price = t.gas_price;
  gas = truthy_number gas;
}

module _ (node : Node) where
  -- A chain id of 0 leaves the key out.
  abbrev pub legacy_chain : Option ℕ → Option ℕ
  legacy_chain none = some node.chain_id
  legacy_chain (some n) = truthy_number (some n)

  -- `if estimate_gas and not gas`
  abbrev pub or_estimate : Bool → Option ℕ → LegacyTrx → Option ℕ
  or_estimate false gas t = gas
  or_estimate true none t = some (node.estimate_legacy t)
  or_estimate true (some zero) t = some (node.estimate_legacy t)
  or_estimate true (some (suc n)) t = some (suc n)

  pub make_raw_tx :
      Text
      → Option Text
      → Option ℕ
      → Option ℕ
      → Option ℕ
      → Option ℕ
      → Option ℕ
      → Option Bytes
      → Bool
      → LegacyTrx
  make_raw_tx from to amount gas gas_price nonce chain_id content estimate_gas =
      let t : LegacyTrx = record {
        sender = from;
        to = truthy to;
        value = truthy_number amount;
        content = truthy content;
        nonce = or_node (node.nonce_of from) nonce;
        chain_id = legacy_chain chain_id;
        gas_price = or_node node.gas_price gas_price;
        gas = none;
      } in
      with_gas (or_estimate estimate_gas gas t) t

  -- The value of a parameter, where `"auto"` stands for the given one.
  abbrev pub resolve : ℕ → Setting → Option ℕ
  resolve d absent = none
  resolve d auto = some d
  resolve d (given n) = some n

  -- The automatic maximal fee reads the priority fee that was set before.
  abbrev pub resolve_max_fee : Option ℕ → Setting → Result (Option ℕ)
  resolve_max_fee p absent = ok none
  resolve_max_fee p (given n) = ok (some n)
  resolve_max_fee none auto = err key_error
  resolve_max_fee (some p) auto = ok (some (node.fee_sum node.base_fee p))

  -- Without an access list. The gas is estimated before the fees are set.
  pub make_raw_tx_eip_1559 :
      Setting
      → Text
      → Option Text
      → Option ℕ
      → Setting
      → Option Bytes
      → Setting
      → Setting
      → Setting
      → Result FeeTrx
  make_raw_tx_eip_1559 chain_id from to value nonce content gas max_priority_fee max_fee = do
    let t : FeeTrx = record {
      chain_id = resolve node.chain_id chain_id;
      sender = from;
      to = to;
      value = value;
      nonce = resolve (node.nonce_of from) nonce;
      content = content;
      gas = none;
      max_priority_fee = none;
      max_fee = none;
    }
    let priority = resolve node.priority_fee max_priority_fee
    fee ← resolve_max_fee priority max_fee
    ok (record {
      chain_id = t.chain_id;
      sender = t.sender;
      to = t.to;
      value = t.value;
      nonce = t.nonce;
      content = t.content;
      gas = resolve (node.estimate_fee t) gas;
      max_priority_fee = priority;
      max_fee = fee;
    })

  -- The priority fee and the maximal fee of a gas price.
  pub gas_price_to_eip1559_params : ℕ → Result (ℕ × ℕ)
  gas_price_to_eip1559_params gas_price =
      guard (not (ltb gas_price node.base_fee)) assertion_error
      >> ok (gas_price - node.base_fee, gas_price)

  -- `… if gas_price is not None else "auto"`, for both fees.
  pub fees_of : Option ℕ → Result (Setting × Setting)
  unfolding gas_price_to_eip1559_params
  fees_of none = ok (auto, auto)
  fees_of (some p) = do fees ← gas_price_to_eip1559_params p; ok (given fees.0, given fees.1)

  -- `make_raw_tx` of a type other than the old one: the gas price counts only with a gas limit.
  pub make_raw_tx_typed :
      Text
      → Option Text
      → Option ℕ
      → Option ℕ
      → Option ℕ
      → Option ℕ
      → Option ℕ
      → Option Bytes
      → Bool
      → Result FeeTrx
  unfolding make_raw_tx_eip_1559 fees_of
  make_raw_tx_typed from to amount gas gas_price nonce chain_id content estimate_gas = do
    fees ← fees_of (if is_given gas then gas_price else none)
    make_raw_tx_eip_1559 (or_auto chain_id) from to amount (or_auto nonce) content
        (if estimate_gas then auto else setting_of gas) fees.0 fees.1

  -- The transactions that `send_tokens` signs and sends, of the old and of the new type.
  unfoldable pub send_tokens_legacy :
      Text → Option Text → ℕ → Option ℕ → Option ℕ → Option ℕ → LegacyTrx
  unfolding make_raw_tx
  send_tokens_legacy from to value gas gas_price nonce =
      make_raw_tx from to (some value) gas gas_price nonce none none true

  unfoldable pub send_tokens_fee :
      Text → Option Text → ℕ → Option ℕ → Option ℕ → Option ℕ → Result FeeTrx
  unfolding make_raw_tx_eip_1559 fees_of
  send_tokens_fee from to value gas gas_price nonce = do
    fees ← fees_of gas_price
    make_raw_tx_eip_1559 auto from to (some value) (or_auto nonce) none (or_auto gas) fees.0 fees.1

  pub send_tokens :
      Text → Option Text → ℕ → Option ℕ → Option ℕ → Option ℕ → TransactionType → Result AnyTrx
  unfolding send_tokens_legacy send_tokens_fee
  send_tokens from to value gas gas_price nonce tx_type =
      if is_legacy tx_type
      then ok (legacy_trx (send_tokens_legacy from to value gas gas_price nonce))
      else (do t ← send_tokens_fee from to value gas gas_price nonce; ok (fee_trx t))
