-- ===== src/Clients.antt =====
-- The clients of utils/ for the JSON-RPC of a node, the faucet, the prices of tokens and the accounts
-- of the tests.
pub mod Rpc
pub mod Polling
pub mod Accounts
pub mod Solana
pub mod Operator
pub mod Prices
mod Tests
