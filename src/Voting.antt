-- ===== src/Voting.antt =====
-- domain/state: the canonical voting state machine.
pub mod Env
pub mod State
pub mod Choices
pub mod Polls
pub mod Attestation
pub mod Ballots
pub mod Batch
pub mod Confirms
pub mod Close
pub mod Reseal
pub mod Authority
pub mod Validators
pub mod Dispatch
pub mod App
pub mod Storage
pub mod TwoLists
pub mod Invariant
