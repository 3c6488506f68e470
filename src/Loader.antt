-- ===== src/Loader.antt =====
-- utils/evm_loader.py: the client of the EVM program, and the holder accounts of
-- integration/tests/neon_evm/utils/storage.py.
pub mod Writes
pub mod Chunks
pub mod Delivery
pub mod Steps
pub mod Iterations
pub mod Holder
pub mod Sends
pub mod Addresses
pub mod Deposits
mod Tests
mod Moved
