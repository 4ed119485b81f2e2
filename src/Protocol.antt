-- ===== src/Protocol.antt =====
-- protocol/: the records of the canonical state, the transactions, and the submission nonce.
pub mod Types
pub mod Txs
pub mod Errors
pub mod Events
pub mod Nonce
