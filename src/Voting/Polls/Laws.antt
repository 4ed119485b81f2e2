-- ===== src/Voting/Polls/Laws.antt =====
-- What an accepted poll is.
use community.Base.{ℕ, ap, Bool-cases, inl, inr, ◌≡◌, refl, false, ◌∷◌, arith, length, is_empty}
use community.Base.Result.{ok}
use community.Data.Base64.{base64_decode}
use community.Data.Bytes.{Bytes, ◌==◌, ==_iff}
use community.Protocol.Txs.Validate.{check_key}
use community.Voting.Polls.{check_keys}

base64_decode-newline : (key : Bytes) → base64_decode (10 ∷ key) ≡ base64_decode key
unfolding base64_decode
base64_decode-newline key = refl

longer_ne : (c : ℕ) (k : Bytes) → (k == (c ∷ k)) ≡ false
longer_ne c k = elim (Bool-cases (k == (c ∷ k))) [
  | inl e ↦ absurd (omega (arith, ap length ((==_iff k (c ∷ k)).0 e)))
  | inr e ↦ e
]

-- A key that is accepted for one authority, and that same key after a line feed for the other, are
-- accepted as two distinct keys, and decode to the same bytes: the two-party threshold is one party.
pub check_keys-newline :
    (key : Bytes)
    → is_empty key ≡ false
    → check_key key ≡ ok tt
    → (check_keys key (10 ∷ key) ≡ ok tt) × (base64_decode (10 ∷ key) ≡ base64_decode key)
unfolding check_keys check_key
check_keys-newline key given valid =
    (ground (arith, base64_decode-newline key, longer_ne 10 key), base64_decode-newline key)
