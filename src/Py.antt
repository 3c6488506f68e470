-- ===== src/Py.antt =====
-- What the Python code of the repository uses of the language: exceptions, and integers as bytes.
mod Outcome
pub mod Bytes
pub mod Hex
pub mod Number
pub mod Struct
pub mod Unicode
pub use Outcome.*
