-- ===== src/Provider.antt =====
-- ipc/provider: the library through which a client reaches the subnets.
pub mod Relayer
pub mod Json
pub mod JsonRpc
pub mod Lotus
pub mod Config
pub mod SubnetManager
pub mod Client
pub mod Evm
mod Tests
