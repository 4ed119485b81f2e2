-- ===== src/Lib.antt =====
-- The canonical voting state machine of the community node, its transactions and its ABCI
-- application, and the ledger of its wire embodiment.
--
-- The program keeps two lists for each poll that no field joins: List 1 (`voteDirections`) has the
-- ballots with their choices and no identity, List 2 (`voterRegistry`) the identities with no
-- choice. Ballots arrive in batches, which are validated, sorted by ballot id and written to both
-- lists. A poll closes only if both lists have the same number of entries, and its tally is signed
-- over the Merkle roots of the two. Around that stand updates and withdrawals of ballots, confirmed
-- receipts, sealed ballots, rescission and restoration by two authorities, rolling checkpoints, and
-- the consensus validators.
--
-- Which file models what:
--   * Protocol/Types.antt, Txs.antt, Txs/Validate.antt: protocol/types/poll.go and
--     protocol/tx/tx.go (the payloads, and `Tx.Validate` branch by branch).
--   * Protocol/Nonce.antt: protocol/submission/nonce.go, and `RecordBeacon` of
--     domain/state/state.go.
--   * Voting/State.antt, Dispatch.antt: domain/state/state.go (`State`, its keys and counts,
--     `ValidateTx`, `ExecuteTx`).
--   * Voting/Polls.antt: domain/state/polls.go. Voting/Choices.antt: `validateChoices`.
--   * Voting/Ballots.antt and Ballots/Checks.antt: domain/state/ballots.go.
--   * Voting/Batch.antt and Batch/Checks.antt: domain/state/batch_flush.go.
--   * Voting/Attestation.antt, Attestation/Collect.antt, Attestation/Merkle.antt, Close.antt:
--     domain/state/tallies.go, and `BuildSigningPayload` of verify/verify.go.
--   * Voting/Confirms.antt, Reseal.antt, Validators.antt: the files of domain/state of these names.
--   * Voting/Authority.antt and Authority/Restore.antt: domain/state/authority_rescind.go.
--   * Voting/Storage.antt: `Commit`, `computeAppHash`, `loadPrefix` and `loadState` of
--     domain/state/state.go, over a store that is a map of byte strings.
--   * Voting/App.antt: app/app.go (`CheckTx`, `FinalizeBlock`).
--   * Voting/TwoLists.antt and below: what each operation does to the sizes of the two lists, and in
--     Matched.antt what any sequence of accepted transactions does to them.
--     Voting/Invariant.antt and below: an invariant of both lists over all handlers and runs.
--   * Wire/Types.antt, Txs.antt, Txs/Validate.antt: embodiments/shywire/types and tx/tx.go.
--     Wire/State.antt, Dispatch.antt, App.antt: state/state.go, state/validators.go and app/app.go of
--     the embodiment. Wire/Query.antt and Storage.antt: `Query`, and `Commit` with `computeAppHash`, of
--     state/state.go. Wire/Supply.antt, Transfers.antt, AccountAuth.antt, AdverseAction.antt: the
--     files of state of these names. Wire/Contracts.antt and Contracts/Execution.antt:
--     state/financing.go. Wire/Custody.antt and below: state/custody.go.
--   * Wire/Ledger.antt and below: the balances, the supply and the abstract ledger; what each
--     operation does to them, and in Reach.antt the runs of accepted transactions.
--     Wire/Custody/Stock.antt and Allocated.antt: the lots of a pool.
--   * Base and Data: numbers, byte strings, Go maps, `int64` with its wrap-around, hex, base64 and
--     sorting. Tests: concrete inputs.
--
-- The wire embodiment is a second state machine: assets with a supply, accounts with a balance for
-- each asset, transfers that write two lists, contracts that move value, lots in custody that a
-- redemption takes from while it burns, and actions of two authorities against an account.
-- `CheckTx` validates and `FinalizeBlock` executes; in a run of Wire/Ledger/Reach.antt a transaction
-- is executed in a state in which `CheckTx` accepts it.
--
-- A validator is `State → Result Error Unit × State` and a handler
-- `State → Result Error (List Event) × State`: the state is returned on errors too, since some
-- paths change it before they fail. `err panic` is a nil dereference, which ends the process.
-- `time.Now()` is an argument, `now`. A Go map is an association list whose entries have different
-- keys (Data/GoMap.antt). A `string` and a `[]byte` are lists of bytes.
--
-- Fuel: the checkpoint loop of a batch runs on as much fuel as the poll's count, the Merkle loop on
-- as much as there are leaves; roll_batch-Ended and length-merkle_loop state that this is
-- enough for each to run to its end.
--
-- Parameters (Voting/Env.antt, Wire/Env.antt): SHA-256, Keccak-256, Ed25519 verification, ECDSA
-- recovery, the JSON codec, the identity verifier and the signer; and the JSON codec of stored records
-- (`Codecs`). A signer that fails makes a degraded attestation, as in the code.
--
-- Not modelled: logging and tracing; `Query` of domain/state/state.go, which prints the state, and
-- the call of `Commit` in `FinalizeBlock` of app/app.go; errors of the store; of embodiments/shywire
-- `loadState`, which refers to a field that its record does not have, its API and commands; the JSON
-- form of errors and their texts, of which the model keeps which test failed; the cryptography
-- itself; the chat and store state machines, the other embodiments (shares, cam, voting), the HTTP and
-- relay servers, analytics and deployment.
pub mod Base
pub mod Data
pub mod Protocol
pub mod Voting
pub mod Wire
pub mod Tests
