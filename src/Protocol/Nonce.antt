-- ===== src/Protocol/Nonce.antt =====
-- protocol/submission/nonce.go: the format of a submission nonce, the beacon that it refers to, and
-- the submission identifier.
pub mod Laws
use community.Base.{
  ℕ, Bool, true, false, not, ◌&&◌, Option, none, some, List, [], ◌∷◌, ◌++◌, eqb, length, is_some,
  if◌then◌else◌,
}
use community.Base.Result.{Result, ok, err, ◌>>=◌, ◌>>◌, check, reject, or_err}
use community.Data.Bytes.{Bytes, ◌==◌}
use community.Data.Hex.{hex_encode, hex_decode}
use community.Data.Int64.{ℤ, pos, ltb_ℤ, leb_ℤ, eqb_ℤ, ◌-ℤ◌}
use community.Protocol.Errors.{
  Error, nonce_length, nonce_not_hex, nonce_all_zero, nonce_constant, beacon_length, beacon_not_hex,
  beacon_height, beacon_not_in_window, beacon_mismatch,
}

-- the recent block hashes, by height
abbrev pub BeaconWindow : Type 0
BeaconWindow = List (ℤ × Bytes)

abbrev pub beacon_window_size : ℕ
beacon_window_size = 20

unfoldable pub all_equal : ℕ → Bytes → Bool
all_equal v [] = true
all_equal v (b ∷ s) = eqb b v && all_equal v s

-- `allSame` compares every byte with the first.
unfoldable pub all_same : Bytes → Bool
unfolding all_equal
all_same [] = true
all_same (b ∷ s) = all_equal b s

unfoldable pub validate_nonce : Bytes → Result Error (Unit {0})
unfolding all_same
validate_nonce nonce = do
  check (eqb (length nonce) 64) nonce_length
  b ← or_err (hex_decode nonce) nonce_not_hex
  reject (all_equal 0 b) nonce_all_zero
  reject (all_same b) nonce_constant

-- `window[height]`
unfoldable pub window_lookup : ℤ → BeaconWindow → Option Bytes
window_lookup h [] = none
window_lookup h ((k, v) ∷ w) = if eqb_ℤ k h then some v else window_lookup h w

unfoldable pub validate_beacon : Bytes → ℤ → BeaconWindow → Result Error (Unit {0})
validate_beacon hash height window = do
  check (eqb (length hash) 64) beacon_length
  check (is_some (hex_decode hash)) beacon_not_hex
  reject (leb_ℤ height (pos 0)) beacon_height
  canonical ← or_err (window_lookup height window) beacon_not_in_window
  check (canonical == hash) beacon_mismatch

-- `DeriveSubmissionID`; `none` is its error.
unfoldable pub derive_submission_id : (Bytes → Bytes) → Bytes → Bytes → Option Bytes
derive_submission_id sha256 beacon nonce = elim (hex_decode beacon) [
  | none ↦ none
  | some beacon_bytes ↦ elim (hex_decode nonce) [
    | none ↦ none
    | some nonce_bytes ↦ some (hex_encode (sha256 (beacon_bytes ++ nonce_bytes)))
  ]
]

-- `s.beaconWindow[height] = hash`
unfoldable pub window_insert : ℤ → Bytes → BeaconWindow → BeaconWindow
window_insert h v [] = (h, v) ∷ []
window_insert h v ((k, w) ∷ m) = if eqb_ℤ k h then (h, v) ∷ m else (k, w) ∷ window_insert h v m

-- the pruning loop of `RecordBeacon`
unfoldable pub window_prune : ℤ → BeaconWindow → BeaconWindow
window_prune least [] = []
window_prune least ((k, v) ∷ m) =
    let rest = window_prune least m in if ltb_ℤ k least then rest else (k, v) ∷ rest

-- domain/state/state.go, `RecordBeacon`, on the window
unfoldable pub record_beacon : ℤ → Bytes → BeaconWindow → BeaconWindow
unfolding window_insert window_prune
record_beacon height hash w =
    window_prune (height -ℤ pos beacon_window_size) (window_insert height hash w)
