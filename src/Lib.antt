-- ===== src/Lib.antt =====
-- A model of the IPC client: the SDK's subnet identifiers and messages, the key stores and the wallet,
-- the provider with its relayer of checkpoints, and the commands about subnets and messages.
--
-- How the parts interact. A user of `ipc/provider` names a subnet. The provider looks up the subnet,
-- or its parent, in its configuration, connects to the manager of that subnet and calls it, from an
-- account that it takes from the caller, from itself or from the EVM key store. A relayer watches a
-- child subnet and submits the checkpoints that reached a quorum to the parent. Keys come from the
-- stores of `ipc/identity`; subnets and messages are those of `ipc/sdk`.
--
-- The files, and the code that each models:
--   Base             what the parts share: results, actions, maps, texts, decimals, signed integers
--   Sdk/SubnetId     ipc/sdk/src/subnet_id.rs, error.rs: SubnetID and its Error
--   Sdk/IpcAddress   ipc/sdk/src/address.rs: IPCAddress
--   Sdk/Cross        ipc/sdk/src/cross.rs: StorableMsg and the direction of a message
--   Sdk/Contract     ipc/sdk/src/evm.rs, lib.rs: the TryFrom conversions for the contracts' structs
--   Sdk/Staking      ipc/sdk/src/staking.rs, evm.rs: changes of stakes and their conversions
--   Sdk/Validator    ipc/sdk/src/validator.rs: the lists of validators, converted
--   Sdk/Fvm          what is used of the crate fvm_shared: addresses, a parameter
--   Identity/Evm     ipc/identity/src/evm: KeyInfo, MemoryKeyStore, PersistentKeyStore
--   Identity/Fvm     ipc/identity/src/fvm: errors.rs, keystore.rs, wallet.rs
--   Provider/Relayer ipc/provider/src/checkpoint.rs: BottomUpCheckpointManager
--   Provider/Config  ipc/provider/src/config: Config, Subnet, ReloadableConfig, the list in the file
--   Provider/SubnetManager  ipc/provider/src/manager/subnet.rs: the traits, as a record
--   Provider/Evm     ipc/provider/src/manager/evm/manager.rs: what is read of the parent's chain
--   Provider/Evm/Manager  the same file: EthSubnetManager, its guards, signers and transactions
--   Provider/Evm/Fees     the same file: the estimation of a transaction's fees
--   Provider/Evm/Views    the same file: what is read of the contracts, with Provider/Evm/Answers
--   Provider/Evm/Interface  the same file: the manager behind the interface that the provider uses
--   Provider/Evm/Relay    the same file: a checkpoint from the child's contracts to the parent's
--   Provider/Json    JSON as serde_json has it
--   Provider/JsonRpc ipc/provider/src/jsonrpc/mod.rs: requests to a node and their responses
--   Provider/Lotus   ipc/provider/src/lotus: the messages, how they are read, and LotusJsonRPCClient
--   Provider/Client  ipc/provider/src/lib.rs: IpcProvider; Provider/Client/Setup: how it is made
--   Cli              ipc/cli/src/commands: mod.rs, and the groups subnet and crossmsg
-- The modules below these hold their theorems; the Fixtures and Tests modules hold concrete
-- parameters and the theorems at concrete inputs.
--
-- State and errors. A method with `&mut self` is an action `Exec E S A`: it takes a state and gives a
-- result and the state after it, which is kept beside an error too. A result is a value, an error or
-- a panic. An `anyhow` error is its message. Rust names become snake_case, and the acronyms of types
-- are words (SubnetID is SubnetId).
--
-- Parameters. The file system, serde codecs, base64 and hex, Argon2, XSalsa20Poly1305, the random
-- generator, elliptic curves, addresses of fvm_shared, the texts of ethers' numbers and addresses,
-- the node, the getters of the contracts and the managers of subnets are records of operations. A
-- theorem that relies on what such code does names it in a record of laws; the Fixtures modules
-- instantiate each of those records. Both key stores write through a `BufWriter` that is dropped
-- without a flush: what the drop meets is an operation of its own, whose error the code loses, and a
-- theorem that a file is read again asks that this last write succeeded.
--
-- Bounds. Heights are `i64`, which the contracts have as `u64`: the sums of the relayer wrap at 2
-- ^ 63, and its theorems ask that they fit. Roots of subnets are `u64`. Recursion is structural
-- but for two places: the loop over heights runs for the number of heights that are due, and
-- `MemoryKeyStore::remove`, which calls itself for the default key, is given two calls, shown to
-- be enough by `remove-total`. The daemon runs for any number of rounds.
--
-- Not modelled: logs, sleeps and locks, clearing of memory, CBOR of identifiers and addresses, code
-- of the feature fil-actor, TOML and serde visitors of the configuration, the opening of a
-- websocket, serde's derived code, clap's parsing and the other
-- groups of commands.
pub mod Base
pub mod Sdk
pub mod Identity
pub mod Provider
pub mod Cli
