-- ===== src/Voting/Choices.antt =====
-- domain/state/ballots.go, `validateChoices`; and the option loop of polls.go. A `map[string]bool`
-- that only grows is the list of its keys.
pub mod Laws
use community.Base.{
  Bool, true, false, not, ◌&&◌, ◌||◌, List, [], ◌∷◌, eqb, length, is_empty, if◌then◌else◌,
}
use community.Base.Result.{Result, ok, err, ◌>>=◌, ◌>>◌, check, reject}
use community.Data.Bytes.{Bytes, ◌==◌}
use community.Protocol.Errors.{
  Error, no_choices, invalid_choice, duplicate_choice, plurality_one_choice, empty_option,
  duplicate_option,
}
use community.Protocol.Types.{Poll, voting_method_plurality}

unfoldable pub contains : List Bytes → Bytes → Bool
contains [] a = false
contains (x ∷ xs) a = x == a || contains xs a

-- `method := poll.VotingMethod; if method == "" { method = plurality }`
unfoldable pub effective_method : Bytes → Bytes
effective_method method = if is_empty method then voting_method_plurality else method

unfoldable pub check_choices : List Bytes → List Bytes → List Bytes → Result Error (Unit {0})
check_choices options seen [] = ok tt
check_choices options seen (c ∷ cs) =
    let rest = check_choices options (c ∷ seen) cs in
    if not (contains options c)
    then err invalid_choice
    else if contains seen c
    then err duplicate_choice
    else rest

unfoldable pub validate_choices : Poll → List Bytes → Result Error (Unit {0})
validate_choices poll choices = do
  reject (is_empty choices) no_choices
  check_choices poll.options [] choices
  reject
      (effective_method poll.voting_method == voting_method_plurality
        && not (eqb (length choices) 1))
      plurality_one_choice

-- the loop over `data.Options` in `validatePollCreate`
unfoldable pub check_options : List Bytes → List Bytes → Result Error (Unit {0})
check_options seen [] = ok tt
check_options seen (o ∷ os) =
    let rest = check_options (o ∷ seen) os in
    if is_empty o then err empty_option else if contains seen o then err duplicate_option else rest
