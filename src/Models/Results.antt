-- ===== src/Models/Results.antt =====
-- utils/models/result.py: the models of the receipts of the node, and the events of a transaction.
pub mod Events
use neon_tests.Prelude.{
  ℕ, [], ◌∷◌, ◌++◌, List, Option, none, some, ◌==◌, ◌&&◌, ◌||◌, not, if◌then◌else◌, any, map, Bool,
  true, false,
}
use neon_tests.Prelude.Text.{Text, codes, text_eq}
use neon_tests.Py.{Result, ok, err, value_error}
use neon_tests.Results.Order.{keep}
use neon_tests.Results.PreviousTags.{is_among}

-- The members of the enumeration of integration/tests/basic/helpers/basic.py, and their values.
pub data NeonEventType : Type 0 where
  enter_create exit_stop return log enter_call enter_call_code enter_static_call : NeonEventType
  enter_delegate_call enter_create2 exit_return exit_self_destruct exit_revert : NeonEventType
  exit_send_all cancel lost invalid_revision step_reset : NeonEventType

unfoldable pub value : NeonEventType → Text
value enter_create = codes "EnterCreate"
value exit_stop = codes "ExitStop"
value return = codes "Return"
value log = codes "Log"
value enter_call = codes "EnterCall"
value enter_call_code = codes "EnterCallCode"
value enter_static_call = codes "EnterStaticCall"
value enter_delegate_call = codes "EnterDelegateCall"
value enter_create2 = codes "EnterCreate2"
value exit_return = codes "ExitReturn"
value exit_self_destruct = codes "ExitSelfDestruct"
value exit_revert = codes "ExitRevert"
value exit_send_all = codes "ExitSendAll"
value cancel = codes "Cancel"
value lost = codes "Lost"
value invalid_revision = codes "InvalidRevision"
value step_reset = codes "StepReset"

-- `NeonGetLogsDetails`
pub record Event : Type 0 where
  pub removed : Bool
  pub log_index : Option Text
  pub block_number : Option Text
  pub block_hash : Option Text
  pub transaction_hash : Option Text
  pub transaction_index : Option Text
  pub address : Option Text
  pub content : Text
  pub topics : List Text
  pub solana_transaction_signature : Text
  pub solana_instruction_index : ℕ
  pub solana_inner_instruction_index : Option ℕ
  pub solana_address : Option Text
  pub neon_event_type : Text
  pub neon_event_level : ℕ
  pub neon_event_order : ℕ
  pub neon_is_hidden : Bool
  pub neon_is_reverted : Bool

pub record SolanaInstruction : Type 0 where
  pub solana_program : Text
  pub solana_instruction_index : ℕ
  pub solana_inner_instruction_index : Option ℕ
  pub svm_heap_size_limit : ℕ
  pub svm_cycles_limit : ℕ
  pub svm_cycles_used : ℕ
  pub neon_instruction_code : ℕ
  pub neon_instruction_name : Text
  pub neon_evm_steps : ℕ
  pub neon_total_evm_steps : ℕ
  pub neon_gas_used : ℕ
  pub neon_total_gas_used : ℕ
  pub neon_transaction_fee : ℕ
  pub neon_miner : Option Text
  pub neon_logs : List Event

pub record SolanaTransaction : Type 0 where
  pub solana_transaction_signature : Text
  pub solana_transaction_is_success : Bool
  pub solana_block_slot : ℕ
  pub solana_lamport_expense : ℕ
  pub neon_operator_address : Text
  pub solana_instructions : List SolanaInstruction

pub record NeonCosts : Type 0 where
  pub neon_operator_address : Text
  pub solana_lamport_expense : ℕ
  pub neon_alan_income : ℕ

-- `NeonReceiptDetails`
pub record NeonReceipt : Type 0 where
  pub transaction_hash : Text
  pub transaction_index : Text
  pub type : Text
  pub block_hash : Text
  pub block_number : Text
  pub sender : Text
  pub to : Option Text
  pub effective_gas_price : Text
  pub gas_used : Text
  pub cumulative_gas_used : Text
  pub contract_address : Option Text
  pub status : Text
  pub logs_bloom : Text
  pub logs : List Event
  pub solana_block_hash : Text
  pub solana_complete_transaction_signature : Text
  pub solana_complete_instruction_index : ℕ
  pub solana_complete_inner_instruction_index : Option ℕ
  pub neon_raw_transaction : Text
  pub neon_is_completed : Bool
  pub neon_is_canceled : Bool
  pub solana_transactions : List SolanaTransaction
  pub neon_costs : List NeonCosts

abbrev pub bool_eq : Bool → Bool → Bool
bool_eq true b = b
bool_eq false b = not b

-- The tests of an event: its type, which must not be ignored, and whether it was removed.
abbrev pub has_type : Option NeonEventType → Event → Bool
has_type none e = true
has_type (some t) e = text_eq e.neon_event_type (value t)

abbrev pub is_removed : Option Bool → Event → Bool
is_removed none e = true
is_removed (some b) e = bool_eq e.removed b

unfoldable pub is_wanted : Option NeonEventType → List Text → Option Bool → Event → Bool
unfolding value
is_wanted filter_by_type ignored removed e =
    has_type filter_by_type e && not (is_among ignored e.neon_event_type) && is_removed removed e

unfoldable pub instruction_events : (Event → Bool) → List SolanaInstruction → List Event
unfolding keep
instruction_events p [] = []
instruction_events p (i ∷ is) = keep p i.neon_logs ++ instruction_events p is

unfoldable pub transaction_events : (Event → Bool) → List SolanaTransaction → List Event
unfolding instruction_events
transaction_events p [] = []
transaction_events p (t ∷ ts) =
    instruction_events p t.solana_instructions ++ transaction_events p ts

unfoldable pub get_all_events :
    NeonReceipt → Option NeonEventType → List NeonEventType → Option Bool → List Event
unfolding is_wanted transaction_events value
get_all_events result filter_by_type ignore_events removed =
    transaction_events (is_wanted filter_by_type (map value ignore_events) removed)
      result.solana_transactions

-- `ReceiptDetails.check_status`, on the two fields of which one must be there.
unfoldable pub check_status : Option Text → Option Text → Result (Unit {0})
check_status none none = err value_error
check_status (some s) (some r) = err value_error
check_status (some s) none = ok tt
check_status none (some r) = ok tt
