-- ===== src/Instr.antt =====
-- utils/instructions.py: the instructions of the EVM program, as bytes and account lists. A key is
-- an element of an abstract type; where the source is handed a key pair, the model is handed its
-- public key. The integers are natural numbers.
pub mod Defs
pub mod Budget
pub mod Accounts
pub mod Layout
pub mod Serialize
mod Tests
