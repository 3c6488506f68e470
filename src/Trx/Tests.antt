-- ===== src/Trx/Tests.antt =====
-- The theorems on transactions at concrete ones.
use neon_tests.Prelude.{◌<◌, ◌≡◌, ◌≢◌, refl, [], ◌∷◌, none, some, arith}
use neon_tests.Prelude.Int.{pos}
use neon_tests.Py.{ok, err, plain_exception, struct_error}
use neon_tests.Py.Bytes.{Bytes}
use neon_tests.Rlp.{nothing, bytes}
use neon_tests.Trx.{Trx, from_string, raw, chain_id, get_msg}
use neon_tests.Trx.ChainId.{get_msg-eip155}
use neon_tests.Trx.RoundTrip.{IsWire, from_string-raw}
use neon_tests.Trx.Keccak.{make_keccak_instruction_data, make_keccak_out_of_range}

-- A transfer on chain 111 with a signature.
abbrev transfer : Trx
transfer = record {
  nonce = some (pos 3);
  gas_price = some (pos 1000000);
  gas_limit = some (pos 21000);
  to_address = bytes (0xAB ∷ 0xCD ∷ []);
  value = some (pos 5);
  call_data = nothing;
  v = some (pos 257);
  r = some (pos 17);
  s = some (pos 300);
}

transfer-IsWire : IsWire transfer
transfer-IsWire = record {
  nonce = omega arith;
  gas_price = omega arith;
  gas_limit = omega arith;
  to_address = tt;
  value = omega arith;
  call_data = tt;
  v = omega arith;
  r = omega arith;
  s = omega arith;
  size = omega arith;
}

from_string-raw_example : (bs : Bytes) × (raw transfer ≡ ok bs) × (from_string bs ≡ ok transfer)
from_string-raw_example = from_string-raw transfer transfer-IsWire

get_msg-eip155_example :
    (chain_id transfer ≡ ok (pos 111)) × (get_msg transfer none ≡ get_msg transfer (some (pos 111)))
get_msg-eip155_example = get_msg-eip155 transfer 110 0 (omega arith) refl

abbrev first_byte : Bytes → Bytes
first_byte [] = []
first_byte (b ∷ bs) = b ∷ []

make_keccak_out_of_range_example :
    (make_keccak_instruction_data (pos 256) (pos 300) (pos 5) ≡ err struct_error)
    × (make_keccak_instruction_data (pos 256) (pos 300) (pos 5) ≢ err plain_exception)
make_keccak_out_of_range_example =
    make_keccak_out_of_range (pos 256) (pos 300) (pos 5) (λ (h : 256 < 256). omega arith)
