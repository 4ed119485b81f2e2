-- ===== src/Voting/Attestation/Merkle/Laws.antt =====
-- The loop ends with one leaf, and the root does not depend on the order of the items.
use mathlib.Core.List.{Perm}
use community.Base.{ℕ, zero, suc, ◌+◌, ◌≤◌, ◌≡◌, refl, ap, List, [], ◌∷◌, arith, length}
use community.Data.Bytes.{Bytes}
use community.Data.Sort.{sort_strings-perm}
use community.Voting.Attestation.Merkle.{
  next_level, merkle_loop, merkle_of_sorted, compute_merkle_root,
}

module _ (sha256 : Bytes → Bytes) where
  pub length-next_level :
      (l : List Bytes)
      → (length (next_level sha256 l) ≤ length l)
        × (length l ≤ length (next_level sha256 l) + length (next_level sha256 l))
  unfolding next_level
  length-next_level [] = omega arith
  length-next_level (a ∷ []) = omega arith
  length-next_level (a ∷ b ∷ l) = omega (arith, length-next_level l)

  -- From any number of leaves, with as much fuel, exactly one leaf is left: the loop ends by its
  -- own test and `leaves[0]` is there.
  pub length-merkle_loop :
      (fuel : ℕ) (a : Bytes) (l : List Bytes)
      → length (a ∷ l) ≤ fuel
      → length (merkle_loop sha256 fuel (a ∷ l)) ≡ 1
  unfolding merkle_loop next_level
  length-merkle_loop zero a l h = absurd (omega arith)
  length-merkle_loop (suc fuel) a [] h = refl
  length-merkle_loop (suc fuel) a (b ∷ l) h =
      length-merkle_loop fuel _ (next_level sha256 l) (omega (arith, length-next_level l))

  -- The root is the same for the items in any order.
  pub compute_merkle_root-perm :
      {items other : List Bytes}
      → Perm items other
      → compute_merkle_root sha256 items ≡ compute_merkle_root sha256 other
  unfolding compute_merkle_root
  compute_merkle_root-perm p = ap (merkle_of_sorted sha256) (sort_strings-perm p)
