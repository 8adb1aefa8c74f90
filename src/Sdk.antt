-- ===== src/Sdk.antt =====
-- ipc/sdk: subnet identifiers, cross-net addresses and messages, and the forms the contracts use.
pub mod Fvm
pub mod SubnetId
pub mod IpcAddress
pub mod Cross
pub mod Contract
pub mod Staking
pub mod Validator
pub mod Fixtures
mod Tests
