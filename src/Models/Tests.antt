-- ===== src/Models/Tests.antt =====
-- Examples for the models.
use neon_tests.Prelude.{◌≡◌, ◌⊎◌, refl, [], ◌∷◌, none, some, map, All, true, false}
use neon_tests.Prelude.Int.{negsuc}
use neon_tests.Prelude.Text.{Text, codes, starts_with}
use neon_tests.Py.{ok}
use neon_tests.Py.Bytes.{Bytes, AreBytes}
use neon_tests.Py.Hex.{from_hex, digit_value}
use neon_tests.Results.Order.{keep}
use neon_tests.Models.Validators.{
  to_even, remove_prefix, unhexlify, validate_hex_string, EthErrorDetail, validate_detail,
}
use neon_tests.Models.Validators.Hex.{validate_hex_string-decodes, validate_detail-blank}
use neon_tests.Models.Results.{
  NeonReceipt, SolanaInstruction, SolanaTransaction, Event, value, log, step_reset, is_wanted,
  get_all_events,
}
use neon_tests.Models.Results.Events.{all_logs, IsWanted, get_all_events-keep}

accepted : validate_hex_string (codes "0xabc") ≡ ok (codes "0xabc")
unfolding validate_hex_string unhexlify digit_value
accepted = refl

validate_hex_string-decodes_example :
    (codes "0xabc" ≡ codes "0xabc")
    × (starts_with (codes "0xabc") (codes "0x") ≡ true)
    × (bs : Bytes) × (from_hex (to_even (remove_prefix (codes "0xabc"))) ≡ ok bs)
    × AreBytes bs
validate_hex_string-decodes_example =
    validate_hex_string-decodes (codes "0xabc") (codes "0xabc") accepted

abbrev blank : EthErrorDetail
blank = record { code = none; message = none; errors = none }

detail : validate_detail (negsuc 32601) (codes "no method") none ≡ ok blank
unfolding validate_detail
detail = refl

validate_detail-blank_example :
    (blank.code ≡ none)
    × (blank.message ≡ none)
    × ((blank.errors ≡ none) ⊎ (blank.errors ≡ some none))
validate_detail-blank_example =
    validate_detail-blank (negsuc 32601) (codes "no method") none blank detail

abbrev event : Text → Event
event type = record {
  removed = false;
  log_index = none;
  block_number = none;
  block_hash = none;
  transaction_hash = none;
  transaction_index = none;
  address = none;
  content = codes "0x";
  topics = [];
  solana_transaction_signature = [];
  solana_instruction_index = 0;
  solana_inner_instruction_index = none;
  solana_address = none;
  neon_event_type = type;
  neon_event_level = 0;
  neon_event_order = 0;
  neon_is_hidden = false;
  neon_is_reverted = false;
}

abbrev instruction : SolanaInstruction
instruction = record {
  solana_program = codes "NeonEVM";
  solana_instruction_index = 0;
  solana_inner_instruction_index = none;
  svm_heap_size_limit = 0;
  svm_cycles_limit = 0;
  svm_cycles_used = 0;
  neon_instruction_code = 61;
  neon_instruction_name = codes "TxExecFromData";
  neon_evm_steps = 0;
  neon_total_evm_steps = 0;
  neon_gas_used = 0;
  neon_total_gas_used = 0;
  neon_transaction_fee = 0;
  neon_miner = none;
  neon_logs = event (codes "Log") ∷ event (codes "StepReset") ∷ event (codes "ExitStop") ∷ [];
}

abbrev transaction : SolanaTransaction
transaction = record {
  solana_transaction_signature = [];
  solana_transaction_is_success = true;
  solana_block_slot = 0;
  solana_lamport_expense = 0;
  neon_operator_address = [];
  solana_instructions = instruction ∷ [];
}

abbrev receipt : NeonReceipt
receipt = record {
  transaction_hash = [];
  transaction_index = [];
  type = [];
  block_hash = [];
  block_number = [];
  sender = [];
  to = none;
  effective_gas_price = [];
  gas_used = [];
  cumulative_gas_used = [];
  contract_address = none;
  status = [];
  logs_bloom = [];
  logs = [];
  solana_block_hash = [];
  solana_complete_transaction_signature = [];
  solana_complete_instruction_index = 0;
  solana_complete_inner_instruction_index = none;
  neon_raw_transaction = [];
  neon_is_completed = true;
  neon_is_canceled = false;
  solana_transactions = transaction ∷ [];
  neon_costs = [];
}

get_all_events_runs :
    get_all_events receipt none (step_reset ∷ []) (some false)
    ≡ event (codes "Log") ∷ event (codes "ExitStop") ∷ []
unfolding get_all_events value is_wanted keep
get_all_events_runs = refl

get_all_events-keep_example :
    (get_all_events receipt (some log) (step_reset ∷ []) none
      ≡ keep
          (is_wanted (some log) (map value (step_reset ∷ [])) none)
          (all_logs receipt.solana_transactions))
    × All
        (IsWanted (some log) (step_reset ∷ []) none)
        (get_all_events receipt (some log) (step_reset ∷ []) none)
get_all_events-keep_example = get_all_events-keep receipt (some log) (step_reset ∷ []) none
