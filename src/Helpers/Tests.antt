-- ===== src/Helpers/Tests.antt =====
-- The helpers at concrete texts.
use neon_tests.Prelude.{ℕ, ◌≡◌, refl, [], ◌∷◌, none, some}
use neon_tests.Prelude.Text.{codes, starts_with}
use neon_tests.Helpers.{
  split_at, get_contract_abi, contract_names, title, case_snake_to_camel, zfill, padhex,
}

camel_name : case_snake_to_camel (codes "max_fee_per_gas") ≡ codes "maxFeePerGas"
unfolding case_snake_to_camel split_at title
camel_name = refl

padded : padhex (codes "0x1a") 4 ≡ codes "0x001a"
unfolding padhex zfill
padded = refl

nested_contract :
    contract_names (codes "EIPs/ERC20/ERC20") none ≡ (codes "EIPs/ERC20/ERC20.sol", codes "ERC20")
unfolding contract_names split_at starts_with
nested_contract = refl

found_interface :
    get_contract_abi {A = ℕ} (codes "B") ((codes "x.sol:A", 1) ∷ (codes "x.sol:B", 2) ∷ []) ≡ some 2
unfolding get_contract_abi split_at
found_interface = refl
