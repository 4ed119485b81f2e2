-- ===== src/Wire.antt =====
-- embodiments/shywire: the state machine of an anonymous transfer ledger.
pub mod Types
pub mod Txs
pub mod Errors
pub mod Env
pub mod State
pub mod Supply
pub mod AccountAuth
pub mod Transfers
pub mod Contracts
pub mod AdverseAction
pub mod Custody
pub mod Dispatch
pub mod App
pub mod Query
pub mod Storage
pub mod Ledger
pub mod Unsigned
