-- ===== src/Voting/Dispatch.antt =====
-- domain/state/state.go, `ValidateTx` and `ExecuteTx`: the handler of each transaction type.
use community.Base.{eqb, if◌then◌else◌}
use community.Base.Result.{err}
use community.Base.Exec.{reads}
use community.Data.Int64.{ℤ}
use community.Protocol.Errors.{unknown_type, direct_cast_disabled}
use community.Protocol.Txs.{
  Tx, tx_type_poll_create, tx_type_ballot_cast, tx_type_poll_close, tx_type_register_validator,
  tx_type_confirm_receipt, tx_type_update_ballot, tx_type_batch_flush, tx_type_reseal_vote,
  tx_type_authority_rescind, tx_type_authority_restore,
}
use community.Voting.Authority.{validate_authority_rescind, execute_authority_rescind}
use community.Voting.Authority.Restore.{validate_authority_restore, execute_authority_restore}
use community.Voting.Ballots.{validate_ballot_update, execute_ballot_update}
use community.Voting.Batch.{execute_batch_flush}
use community.Voting.Batch.Checks.{validate_batch_flush}
use community.Voting.Close.{validate_poll_close, execute_poll_close}
use community.Voting.Confirms.{validate_confirm_receipt, execute_confirm_receipt}
use community.Voting.Env.{Env}
use community.Voting.Polls.{validate_poll_create, execute_poll_create}
use community.Voting.Reseal.{validate_reseal_vote, execute_reseal_vote}
use community.Voting.State.{Handler, Validator}
use community.Voting.Validators.{validate_validator_register, execute_validator_register}

pub data Kind : Type 0 where
  poll_create ballot_cast poll_close register_validator confirm_receipt update_ballot : Kind
  batch_flush reseal_vote authority_rescind authority_restore unknown : Kind

-- the `switch` on `transaction.Type`
unfoldable pub kind_of : Tx → Kind
kind_of t =
    if eqb t.type tx_type_poll_create
    then poll_create
    else if eqb t.type tx_type_ballot_cast
    then ballot_cast
    else if eqb t.type tx_type_poll_close
    then poll_close
    else if eqb t.type tx_type_register_validator
    then register_validator
    else if eqb t.type tx_type_confirm_receipt
    then confirm_receipt
    else if eqb t.type tx_type_update_ballot
    then update_ballot
    else if eqb t.type tx_type_batch_flush
    then batch_flush
    else if eqb t.type tx_type_reseal_vote
    then reseal_vote
    else if eqb t.type tx_type_authority_rescind
    then authority_rescind
    else if eqb t.type tx_type_authority_restore
    then authority_restore
    else unknown

unfoldable pub validate_kind : Kind → Env → ℤ → Tx → Validator
validate_kind poll_create env now t = reads (validate_poll_create env now t)
validate_kind ballot_cast env now t = λ s. (err direct_cast_disabled, s)
validate_kind poll_close env now t = reads (validate_poll_close env now t)
validate_kind register_validator env now t = reads (λ _. validate_validator_register env t)
validate_kind confirm_receipt env now t = reads (validate_confirm_receipt env now t)
validate_kind update_ballot env now t = reads (validate_ballot_update env now t)
validate_kind batch_flush env now t = validate_batch_flush env now t
validate_kind reseal_vote env now t = reads (validate_reseal_vote env t)
validate_kind authority_rescind env now t = reads (validate_authority_rescind env t)
validate_kind authority_restore env now t = reads (validate_authority_restore env t)
validate_kind unknown env now t = λ s. (err unknown_type, s)

unfoldable pub execute_kind : Kind → Env → ℤ → Tx → Handler
execute_kind poll_create env now t = execute_poll_create env now t
execute_kind ballot_cast env now t = λ s. (err direct_cast_disabled, s)
execute_kind poll_close env now t = execute_poll_close env now t
execute_kind register_validator env now t = execute_validator_register env t
execute_kind confirm_receipt env now t = execute_confirm_receipt env t
execute_kind update_ballot env now t = execute_ballot_update env t
execute_kind batch_flush env now t = execute_batch_flush env now t
execute_kind reseal_vote env now t = execute_reseal_vote env t
execute_kind authority_rescind env now t = execute_authority_rescind env t
execute_kind authority_restore env now t = execute_authority_restore env t
execute_kind unknown env now t = λ s. (err unknown_type, s)

unfoldable pub validate_tx : Env → ℤ → Tx → Validator
unfolding kind_of validate_kind
validate_tx env now t = validate_kind (kind_of t) env now t

unfoldable pub execute_tx : Env → ℤ → Tx → Handler
unfolding kind_of execute_kind
execute_tx env now t = execute_kind (kind_of t) env now t
