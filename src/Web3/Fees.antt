-- ===== src/Web3/Fees.antt =====
-- The fees of the transactions that the client makes.
use neon_tests.Prelude.{ℕ, ◌+◌, ◌-◌, ◌≤◌, ◌≡◌, refl, Option, none, some, le→ltb, Bool, arith}
use neon_tests.Prelude.Text.{Text}
use neon_tests.Py.{ok}
use neon_tests.Py.Bytes.{Bytes}
use neon_tests.Web3.{
  FeeTrx, LegacyTrx, legacy_trx, fee_trx, legacy, eip_1559, make_raw_tx, send_tokens_legacy,
  send_tokens_fee, Node, or_auto, resolve, fees_of, gas_price_to_eip1559_params,
  make_raw_tx_eip_1559, make_raw_tx_typed, send_tokens,
}

module _ (node : Node) where
  priced_trx : Text → Option Text → ℕ → Option ℕ → ℕ → Option ℕ → FeeTrx
  priced_trx from to value gas price number =
      let t : FeeTrx = record {
        chain_id = some node.chain_id;
        sender = from;
        to = to;
        value = some value;
        nonce = resolve node (node.nonce_of from) (or_auto number);
        content = none;
        gas = none;
        max_priority_fee = none;
        max_fee = none;
      } in
      record {
        chain_id = t.chain_id;
        sender = t.sender;
        to = t.to;
        value = t.value;
        nonce = t.nonce;
        content = t.content;
        gas = resolve node (node.estimate_fee t) (or_auto gas);
        max_priority_fee = some (price - node.base_fee);
        max_fee = some price;
      }

  -- At a gas price from the base fee on, tokens are sent on the node's chain: for the type `LEGACY`,
  -- which is the default, by a transaction of the old type with that gas price, and for `EIP_1559` by
  -- one of the new type with that price as the maximal fee, of which the base fee and the priority fee
  -- are all, and with the given receiver and value.
  pub send_tokens-priced :
      (from : Text) (to : Option Text) (value : ℕ) (gas : Option ℕ) (price : ℕ) (number : Option ℕ)
      → node.base_fee ≤ price
      → ((l : LegacyTrx) × (send_tokens node from to value gas (some price) number legacy
            ≡ ok (legacy_trx l))
          × (l.gas_price ≡ price)
          × (l.sender ≡ from)
          × (l.chain_id ≡ some node.chain_id))
        × ((t : FeeTrx) × (p : ℕ) × (send_tokens node from to value gas (some price) number eip_1559
              ≡ ok (fee_trx t))
            × (t.max_fee ≡ some price)
            × (t.max_priority_fee ≡ some p)
            × (p + node.base_fee ≡ price)
            × (t.chain_id ≡ some node.chain_id)
            × (t.sender ≡ from)
            × (t.to ≡ to)
            × (t.value ≡ some value))
  unfolding send_tokens send_tokens_legacy send_tokens_fee make_raw_tx fees_of
      gas_price_to_eip1559_params make_raw_tx_eip_1559 priced_trx
  send_tokens-priced from to value gas price number h = (
    (send_tokens_legacy node from to value gas (some price) number, refl, refl, refl, refl),
    (
      priced_trx from to value gas price number,
      price - node.base_fee,
      rw (le→ltb price node.base_fee h) refl,
      refl,
      refl,
      omega arith,
      refl,
      refl,
      refl,
      refl,
    ),
  )

  -- If a transaction of the new type is made without a gas limit, it is made with the fees of the
  -- node, and is the same for every gas price that is given.
  pub make_raw_tx_typed-no_gas :
      (from : Text) (to : Option Text) (amount : Option ℕ) (price : Option ℕ)
      (number chain : Option ℕ) (content : Option Bytes) (estimate_gas : Bool)
      → (t : FeeTrx) × (make_raw_tx_typed node from to amount none price number chain content
            estimate_gas
          ≡ ok t)
        × (make_raw_tx_typed node from to amount none none number chain content estimate_gas ≡ ok t)
        × (t.max_priority_fee ≡ some node.priority_fee)
        × (t.max_fee ≡ some (node.fee_sum node.base_fee node.priority_fee))
  unfolding make_raw_tx_typed fees_of make_raw_tx_eip_1559
  make_raw_tx_typed-no_gas from to amount price number chain content estimate_gas =
      (_, refl, refl, refl, refl)
