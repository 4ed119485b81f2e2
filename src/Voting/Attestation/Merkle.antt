-- ===== src/Voting/Attestation/Merkle.antt =====
-- domain/state/tallies.go, `computeMerkleRoot`.
pub mod Laws
pub mod Collision
pub mod Binding
use community.Base.{
  ℕ, zero, suc, ◌+◌, Bool, true, false, List, [], ◌∷◌, ◌++◌, map, length, replicate,
}
use community.Data.Bytes.{Bytes}
use community.Data.Sort.{sort_strings}

module _ (sha256 : Bytes → Bytes) where
  -- One level: neighbours are hashed together, and an odd one out moves up as it is.
  unfoldable pub next_level : List Bytes → List Bytes
  next_level [] = []
  next_level (a ∷ []) = a ∷ []
  next_level (a ∷ b ∷ leaves) = sha256 (a ++ b) ∷ next_level leaves

  -- `for len(leaves) > 1`, with as much fuel as there are leaves
  unfoldable pub merkle_loop : ℕ → List Bytes → List Bytes
  merkle_loop zero leaves = leaves
  merkle_loop (suc fuel) [] = []
  merkle_loop (suc fuel) (a ∷ []) = a ∷ []
  merkle_loop (suc fuel) (a ∷ b ∷ leaves) = merkle_loop fuel (next_level (a ∷ b ∷ leaves))

  abbrev pub first : List Bytes → Bytes
  first [] = []
  first (a ∷ leaves) = a

  unfoldable pub merkle_of_sorted : List Bytes → Bytes
  unfolding merkle_loop next_level
  merkle_of_sorted [] = replicate 32 0
  merkle_of_sorted (a ∷ items) = first (merkle_loop (length (a ∷ items)) (map sha256 (a ∷ items)))

  unfoldable pub compute_merkle_root : List Bytes → Bytes
  unfolding merkle_of_sorted merkle_loop next_level
  compute_merkle_root items = merkle_of_sorted (sort_strings items)
