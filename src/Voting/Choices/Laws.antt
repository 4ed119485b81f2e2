-- ===== src/Voting/Choices/Laws.antt =====
-- What accepted choices are.
use community.Base.{◌≡◌, refl, ◌↔◌, true, false, List, [], ◌∷◌, arith, length, is_empty, All}
use community.Base.Result.{ok}
use community.Data.Bytes.{Bytes, ==_iff}
use community.Protocol.Types.{Poll, voting_method_plurality}
use community.Voting.Choices.{contains, effective_method, check_choices, validate_choices}

-- No element occurs twice, and none of them in `seen`.
abbrev pub Fresh : List Bytes → List Bytes → Type 0
Fresh seen [] = Unit
Fresh seen (c ∷ cs) = (contains seen c ≡ false) × Fresh (c ∷ seen) cs

check_choices_iff :
    (options seen choices : List Bytes)
    → (check_choices options seen choices ≡ ok tt)
      ↔ (All (λ c. contains options c ≡ true) choices × Fresh seen choices)
unfolding check_choices
check_choices_iff options seen [] = (λ h. (tt, tt), λ h. refl)
check_choices_iff options seen (c ∷ cs) =
    let ih = check_choices_iff options (c ∷ seen) cs in (ground (arith, ih), ground (arith, ih))

-- Choices are accepted exactly if there is one at least, each is an option of the poll, none is
-- repeated, and there is a single one where the method is plurality or not set.
pub validate_choices_iff :
    (poll : Poll) (choices : List Bytes)
    → (validate_choices poll choices ≡ ok tt) ↔ (
        (is_empty choices ≡ false)
        × All (λ c. contains poll.options c ≡ true) choices
        × Fresh [] choices
        × (effective_method poll.voting_method ≡ voting_method_plurality → length choices ≡ 1))
unfolding validate_choices
validate_choices_iff poll choices =
    let loop = check_choices_iff poll.options [] choices in
    let same = ==_iff (effective_method poll.voting_method) voting_method_plurality in
    (λ h. ground (arith, loop, same), λ h. ground (arith, loop, same))
