-- ===== src/Web3/Tests.antt =====
-- The theorems on the client's transactions at a concrete node.
use neon_tests.Prelude.{ℕ, ◌+◌, ◌≡◌, none, some, arith}
use neon_tests.Prelude.Text.{codes}
use neon_tests.Py.{ok}
use neon_tests.Web3.{FeeTrx, LegacyTrx, legacy_trx, fee_trx, legacy, eip_1559, Node, send_tokens}
use neon_tests.Web3.Fees.{send_tokens-priced}

abbrev node : Node
node = record {
  chain_id = 111;
  nonce_of = λ a. 4;
  gas_price = 30;
  base_fee = 20;
  priority_fee = 2;
  estimate_legacy = λ t. 21000;
  estimate_fee = λ t. 22000;
  fee_sum = λ b p. b + p;
}

send_tokens-priced_example :
    ((l : LegacyTrx) × (send_tokens node
          (codes "0x1")
          (some (codes "0x2"))
          5
          none
          (some 25)
          none
          legacy
        ≡ ok (legacy_trx l))
      × (l.gas_price ≡ 25)
      × (l.sender ≡ codes "0x1")
      × (l.chain_id ≡ some 111))
    × ((t : FeeTrx) × (p : ℕ) × (send_tokens node
            (codes "0x1")
            (some (codes "0x2"))
            5
            none
            (some 25)
            none
            eip_1559
          ≡ ok (fee_trx t))
        × (t.max_fee ≡ some 25)
        × (t.max_priority_fee ≡ some p)
        × (p + 20 ≡ 25)
        × (t.chain_id ≡ some 111)
        × (t.sender ≡ codes "0x1")
        × (t.to ≡ some (codes "0x2"))
        × (t.value ≡ some 5))
send_tokens-priced_example =
    send_tokens-priced node (codes "0x1") (some (codes "0x2")) 5 none 25 none (omega arith)
