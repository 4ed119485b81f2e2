-- ===== src/Protocol/Nonce/Laws.antt =====
-- What an accepted nonce and an accepted beacon are, and what the beacon window keeps.
use community.Base.{
  ℕ, ◌<◌, ◌≡◌, refl, ◌↔◌, inl, inr, true, false, none, some, [], ◌∷◌, arith, length, is_some,
  if◌then◌else◌, Option-cases,
}
use community.Base.Result.{ok}
use community.Data.Bytes.{Bytes, ==_iff}
use community.Data.Hex.{hex_decode}
use community.Data.Int64.{ℤ, pos, ◌-ℤ◌, ◌<ℤ◌, ltb_ℤ, eqb_ℤ, eqb_ℤ_iff}
use community.Protocol.Nonce.{
  BeaconWindow, all_equal, all_same, validate_nonce, window_lookup, validate_beacon, window_insert,
  window_prune, record_beacon,
}

all_equal_trans : (v b : ℕ) (s : Bytes) → b ≡ v → all_equal v s ≡ true → all_equal b s ≡ true
unfolding all_equal
all_equal_trans v b [] e h = refl
all_equal_trans v b (c ∷ s) e h = ground (arith, all_equal_trans v b s e)

all_same-of_all_equal : (v : ℕ) (s : Bytes) → all_equal v s ≡ true → all_same s ≡ true
unfolding all_same
all_same-of_all_equal v [] h = refl
all_same-of_all_equal v (b ∷ s) h = unfold all_equal in ground (arith, all_equal_trans v b s)

-- A nonce is accepted exactly if it is 64 characters of hex whose bytes are not all the same; the
-- separate test for all-zero bytes refuses nothing more.
pub validate_nonce_iff :
    (nonce : Bytes)
    → (validate_nonce nonce ≡ ok tt)
      ↔ ((length nonce ≡ 64) × ((b : Bytes) × (hex_decode nonce ≡ some b) × (all_same b ≡ false)))
unfolding validate_nonce
validate_nonce_iff nonce = elim (Option-cases (hex_decode nonce)) [
  | inl bad ↦ (ground arith, λ h. ground arith)
  | inr (b, e) ↦ (
    λ h. (ground arith, (b, e, ground (arith, all_same-of_all_equal 0 b))),
    λ h. ground (arith, all_same-of_all_equal 0 b),
  )
]

-- A beacon is accepted exactly if it is 64 characters of hex at a positive height, and the window
-- holds that very hash at that height.
pub validate_beacon_iff :
    (hash : Bytes) (height : ℤ) (window : BeaconWindow)
    → (validate_beacon hash height window ≡ ok tt) ↔ (
        (length hash ≡ 64)
        × (is_some (hex_decode hash) ≡ true)
        × (pos 0 <ℤ height)
        × (window_lookup height window ≡ some hash))
unfolding validate_beacon
validate_beacon_iff hash height window = elim (Option-cases (window_lookup height window)) [
  | inl gone ↦ (ground arith, ground arith)
  | inr (c, e) ↦ (ground (arith, ==_iff c hash), ground (arith, ==_iff c hash))
]

window_lookup-insert :
    (k h : ℤ) (v : Bytes) (w : BeaconWindow)
    → window_lookup k (window_insert h v w) ≡ (if eqb_ℤ h k then some v else window_lookup k w)
unfolding window_lookup window_insert
window_lookup-insert k h v [] = refl
window_lookup-insert k h v ((j, u) ∷ w) =
    ground (arith, eqb_ℤ_iff j h, eqb_ℤ_iff j k, eqb_ℤ_iff h k, window_lookup-insert k h v w)

ltb_ℤ-eq : (j k least : ℤ) → eqb_ℤ j k ≡ true → ltb_ℤ j least ≡ ltb_ℤ k least
ltb_ℤ-eq j k least e = rw ((eqb_ℤ_iff j k).0 e) refl

window_lookup-prune :
    (k least : ℤ) (w : BeaconWindow)
    → window_lookup k (window_prune least w) ≡ (if ltb_ℤ k least then none else window_lookup k w)
unfolding window_lookup window_prune
window_lookup-prune k least [] = ground arith
window_lookup-prune k least ((j, u) ∷ w) =
    ground (arith, ltb_ℤ-eq j k least, window_lookup-prune k least w)

oldest : (h : ℕ) → h < 9223372036854775808 → ltb_ℤ (pos h) (pos h -ℤ pos 20) ≡ false
unfolding ◌-ℤ◌
oldest h lt = ground arith

-- After the block at height `h` (an `int64`) the window holds the new hash at `h`, what it held at
-- every other height from `h - 20` on, and nothing below: 21 heights up to `h`.
pub window_lookup-record_beacon :
    (k : ℤ) (h : ℕ) (hash : Bytes) (w : BeaconWindow)
    → h < 9223372036854775808
    → window_lookup k (record_beacon (pos h) hash w) ≡ (
        if eqb_ℤ (pos h) k
        then some hash
        else if ltb_ℤ k (pos h -ℤ pos 20)
        then none
        else window_lookup k w)
unfolding record_beacon
window_lookup-record_beacon k h hash w lt = ground (
  arith,
  window_lookup-prune k (pos h -ℤ pos 20) (window_insert (pos h) hash w),
  window_lookup-insert k (pos h) hash w,
  oldest h lt,
  ltb_ℤ-eq (pos h) k (pos h -ℤ pos 20),
)
