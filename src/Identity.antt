-- ===== src/Identity.antt =====
-- ipc/identity: the key stores for EVM and FVM keys, and the FVM wallet.
pub mod Evm
pub mod Fvm
pub mod Fixtures
mod Tests
