-- ===== src/Voting/Ballots/Devices.antt =====
-- The two messages that a voter's device signs.
use community.Base.{◌≡◌, ◌≢◌, refl, none, [], ◌∷◌, arith}
use community.Base.Result.{ok}
use community.Data.Bytes.{Bytes}
use community.Data.Hex.{hex_decode}
use community.Protocol.Nonce.{validate_nonce}
use community.Protocol.Nonce.Laws.{validate_nonce_iff}
use community.Voting.Ballots.Checks.{voter_device_sig_message, ballot_update_device_sig_message}

hex_decode-u : (s : Bytes) → hex_decode (117 ∷ s) ≡ none
unfolding hex_decode
hex_decode-u [] = refl
hex_decode-u (c ∷ s) = ground arith

-- A signature for casting a ballot with an accepted nonce is none for an update: the messages
-- differ, whatever the polls and the update's nonce are.
pub device_messages-differ :
    (nonce p nonce' p' : Bytes)
    → validate_nonce nonce ≡ ok tt
    → voter_device_sig_message nonce p ≢ ballot_update_device_sig_message nonce' p'
unfolding voter_device_sig_message ballot_update_device_sig_message
device_messages-differ [] p nonce' p' h e = absurd (ground (arith, validate_nonce_iff []))
device_messages-differ (c ∷ n) p nonce' p' h e =
    let (len, (b, decoded, same)) = (validate_nonce_iff (c ∷ n)).0 h in
    absurd (ground (arith, hex_decode-u n))
