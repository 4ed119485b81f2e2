-- ===== src/Voting/Polls.antt =====
-- domain/state/polls.go: creating a poll.
pub mod Laws
use community.Base.{
  ℕ, Bool, true, false, not, ◌&&◌, ◌||◌, Option, none, some, List, [], ◌∷◌, ◌++◌, eqb, ltb, length,
  is_empty, is_some, if◌then◌else◌,
}
use community.Base.Result.{Result, ok, err, ◌>>=◌, ◌>>◌, check, reject, or_err}
use community.Data.Base64.{base64_decode}
use community.Data.Bytes.{Bytes, bytes, ◌==◌}
use community.Data.Decimal.{format_dec}
use community.Data.GoMap.{lookup, insert}
use community.Data.Hex.{hex_encode}
use community.Data.Int64.{ℤ, pos, ltb_ℤ, leb_ℤ}
use community.Protocol.Errors.{
  Error, invalid_payload, poll_exists, start_in_past, end_before_start, unknown_method,
  too_few_options, too_many_options, keys_not_both, keys_not_distinct, invalid_base64,
  wrong_key_length,
}
use community.Protocol.Events.{text, dec, event, attribute}
use community.Protocol.Txs.{Tx, PollCreateData}
use community.Protocol.Txs.Validate.{check_key, differ}
use community.Protocol.Types.{
  Poll, voting_method_plurality, voting_method_approval, voting_method_ranked, status_pending,
}
use community.Voting.Choices.{check_options, effective_method}
use community.Voting.Env.{Env}
use community.Voting.State.{State, Handler}

-- The loop over the two keys runs in map order; here the eligibility key comes first.
unfoldable pub check_keys : Bytes → Bytes → Result Error (Unit {0})
unfolding check_key
check_keys elig reconcile = do
  reject (differ (is_empty elig) (is_empty reconcile)) keys_not_both
  reject (not (is_empty elig) && elig == reconcile) keys_not_distinct
  check_key elig
  check_key reconcile

is_method : Bytes → Bool
is_method m =
    is_empty m
    || m == voting_method_plurality
    || m == voting_method_approval
    || m == voting_method_ranked

unfoldable pub check_poll_create : ℤ → PollCreateData → State → Result Error (Unit {0})
unfolding is_method
check_poll_create now d s = do
  reject (is_some (lookup d.poll_id s.polls)) poll_exists
  reject (ltb_ℤ d.start_time now) start_in_past
  reject (leb_ℤ d.end_time d.start_time) end_before_start
  check (is_method d.voting_method) unknown_method
  reject (ltb (length d.options) 2) too_few_options
  reject (ltb 10 (length d.options)) too_many_options
  check_options [] d.options
  check_keys d.eligibility_authority_pub_key_base64 d.reconciling_authority_pub_key_base64

unfoldable pub validate_poll_create : Env → ℤ → Tx → State → Result Error (Unit {0})
unfolding check_poll_create
validate_poll_create env now t s = do
  d ← or_err (env.decode_poll_create t.payload) invalid_payload
  check_poll_create now d s

concat : List Bytes → Bytes
concat [] = []
concat (x ∷ xs) = x ++ concat xs

unfoldable pub compute_poll_hash : Env → PollCreateData → Bytes
unfolding concat
compute_poll_hash env d = hex_encode (
    env.sha256 (
      d.poll_id
      ++ (d.question
          ++ (concat d.options
              ++ (d.voting_method ++ (format_dec d.start_time ++ format_dec d.end_time))))))

unfoldable pub new_poll : Env → ℤ → PollCreateData → Poll
unfolding compute_poll_hash
new_poll env now d = record {
  poll_id = d.poll_id;
  poll_hash = compute_poll_hash env d;
  question = d.question;
  options = d.options;
  voting_method = effective_method d.voting_method;
  start_time = d.start_time;
  end_time = d.end_time;
  status = status_pending;
  created_at = now;
  eligibility_authority_pub_key = d.eligibility_authority_pub_key_base64;
  reconciling_authority_pub_key = d.reconciling_authority_pub_key_base64;
  sealed_count = pos 0;
  reattestation_count = pos 0;
  idv_cast_count = pos 0;
}

unfoldable pub execute_poll_create : Env → ℤ → Tx → Handler
execute_poll_create env now t s = elim (env.decode_poll_create t.payload) [
  | none ↦ (err invalid_payload, s)
  | some d ↦ (
    ok (
        event (bytes "poll_created") (
          attribute (bytes "scoping_id") (text d.poll_id) true
          ∷ attribute (bytes "poll_hash") (text (compute_poll_hash env d)) true
          ∷ attribute (bytes "question") (text d.question) false
          ∷ attribute (bytes "start_time") (dec d.start_time) false
          ∷ attribute (bytes "end_time") (dec d.end_time) false
          ∷ [])
        ∷ []),
    record s { polls = insert d.poll_id (new_poll env now d) s.polls; dirty = true },
  )
]
