-- ===== src/Voting/Attestation/Merkle/Binding.antt =====
-- domain/state/tallies.go, `computeMerkleRoot`: what a root says of the items.
use mathlib.Core.List.{Perm}
use mathlib.Core.List.Perm
use mathlib.Core.List.{head-eq_of_cons-eq, tail-eq_of_cons-eq}
use community.Base.{
  ℕ, zero, suc, ◌≤◌, ◌≡◌, refl, sym, ap, ap₂, ◌∙◌, subst, List, [], ◌∷◌, ◌++◌, map, arith, length,
  append_inj, All, ◌⊎◌, inl, inr,
}
use community.Data.Bytes.{Bytes}
use community.Data.Sort.{sort_strings, sort_strings-Perm, length-sort_strings}
use community.Voting.Attestation.Merkle.{
  next_level, merkle_loop, merkle_of_sorted, compute_merkle_root, first,
}
use community.Voting.Attestation.Merkle.Laws.{length-next_level, compute_merkle_root-perm}
use community.Voting.Attestation.Merkle.Collision.{
  Collision, Collision-map, hashed, map-hashed, IsPair, here, there, IsNode, level, above, IsInput,
  leaf, node,
}

module _ (sha256 : Bytes → Bytes) where
  -- a collision between what is hashed for the roots of two lists of items
  abbrev pub RootCollision : List Bytes → List Bytes → Type 0
  RootCollision items other =
      Collision sha256 (λ x. IsInput sha256 x (sort_strings items))
        (λ x. IsInput sha256 x (sort_strings other))

  -- every leaf is as long as a hash
  abbrev Hashes : List Bytes → Type 0
  Hashes = All (λ x. length x ≡ 32)

  module _ (full : (x : Bytes) → length (sha256 x) ≡ 32) where
    map-Hashes : (l : List Bytes) → Hashes (map sha256 l)
    map-Hashes [] = tt
    map-Hashes (a ∷ l) = (full a, map-Hashes l)

    next_level-Hashes : (l : List Bytes) → Hashes l → Hashes (next_level sha256 l)
    unfolding next_level
    next_level-Hashes [] h = tt
    next_level-Hashes (a ∷ []) h = h
    next_level-Hashes (a ∷ b ∷ l) (ha, (hb, h)) = (full (a ++ b), next_level-Hashes l h)

    -- Two levels of hashes that are followed by the same level are the same.
    next_level-hashed :
        (l r : List Bytes)
        → Hashes l
        → Hashes r
        → length l ≡ length r
        → next_level sha256 l ≡ next_level sha256 r
        → (l ≡ r) ⊎ Collision sha256 (λ x. IsPair x l) (λ x. IsPair x r)
    unfolding next_level
    next_level-hashed [] [] hl hr h e = inl refl
    next_level-hashed [] (c ∷ r) hl hr h e = absurd (omega arith)
    next_level-hashed (a ∷ l) [] hl hr h e = absurd (omega arith)
    next_level-hashed (a ∷ []) (c ∷ []) hl hr h e = inl e
    next_level-hashed (a ∷ []) (c ∷ d ∷ r) hl hr h e = absurd (omega arith)
    next_level-hashed (a ∷ b ∷ l) (c ∷ []) hl hr h e = absurd (omega arith)
    next_level-hashed (a ∷ b ∷ l) (c ∷ d ∷ r) (ha, (hb, hl)) (hc, (hd, hr)) h e =
        elim (hashed sha256 {P = λ x. IsPair x (a ∷ b ∷ l)} {Q = λ x. IsPair x (c ∷ d ∷ r)} (a ++ b)
          (c ++ d) (here a b refl) (here c d refl) (head-eq_of_cons-eq e)) [
            | inr x ↦ inr x
            | inl same ↦ elim (next_level-hashed l r hl hr (omega arith) (tail-eq_of_cons-eq e)) [
              | inr x ↦ inr (Collision-map sha256 (λ y. there a b) (λ y. there c d) x)
              | inl rest ↦
                  let (left, right) = append_inj a c b d (ha ∙ sym hc) same in
                  inl (ap₂ ◌∷◌ left (ap₂ ◌∷◌ right rest))
            ]
          ]

    length-next_level_same :
        (l r : List Bytes)
        → length l ≡ length r
        → length (next_level sha256 l) ≡ length (next_level sha256 r)
    unfolding next_level
    length-next_level_same [] [] h = refl
    length-next_level_same [] (c ∷ r) h = absurd (omega arith)
    length-next_level_same (a ∷ l) [] h = absurd (omega arith)
    length-next_level_same (a ∷ []) (c ∷ []) h = refl
    length-next_level_same (a ∷ []) (c ∷ d ∷ r) h = absurd (omega arith)
    length-next_level_same (a ∷ b ∷ l) (c ∷ []) h = absurd (omega arith)
    length-next_level_same (a ∷ b ∷ l) (c ∷ d ∷ r) h =
        omega (arith, length-next_level_same l r (omega arith))

    -- Equally many leaves that end in the same leaf are the same.
    merkle_loop-hashed :
        (fuel : ℕ) (l r : List Bytes)
        → Hashes l
        → Hashes r
        → length l ≡ length r
        → length l ≤ fuel
        → first sha256 (merkle_loop sha256 fuel l) ≡ first sha256 (merkle_loop sha256 fuel r)
        → (l ≡ r) ⊎ Collision sha256 (λ x. IsNode sha256 x l) (λ x. IsNode sha256 x r)
    unfolding merkle_loop next_level
    merkle_loop-hashed fuel [] [] hl hr h enough e = inl refl
    merkle_loop-hashed fuel [] (c ∷ r) hl hr h enough e = absurd (omega arith)
    merkle_loop-hashed fuel (a ∷ l) [] hl hr h enough e = absurd (omega arith)
    merkle_loop-hashed zero (a ∷ l) (c ∷ r) hl hr h enough e = absurd (omega arith)
    merkle_loop-hashed (suc fuel) (a ∷ []) (c ∷ []) hl hr h enough e = inl (ap (λ x. x ∷ []) e)
    merkle_loop-hashed (suc fuel) (a ∷ []) (c ∷ d ∷ r) hl hr h enough e = absurd (omega arith)
    merkle_loop-hashed (suc fuel) (a ∷ b ∷ l) (c ∷ []) hl hr h enough e = absurd (omega arith)
    merkle_loop-hashed (suc fuel) (a ∷ b ∷ l) (c ∷ d ∷ r) hl hr h enough e =
        let below =
          merkle_loop-hashed fuel (next_level sha256 (a ∷ b ∷ l)) (next_level sha256 (c ∷ d ∷ r))
            (next_level-Hashes (a ∷ b ∷ l) hl) (next_level-Hashes (c ∷ d ∷ r) hr)
            (length-next_level_same (a ∷ b ∷ l) (c ∷ d ∷ r) h)
            (omega (arith, length-next_level sha256 l)) e in
        elim below [
          | inr x ↦ inr (Collision-map sha256 (λ y. above) (λ y. above) x)
          | inl same ↦ elim (next_level-hashed (a ∷ b ∷ l) (c ∷ d ∷ r) hl hr h same) [
            | inr x ↦ inr (Collision-map sha256 (λ y. level) (λ y. level) x)
            | inl e' ↦ inl e'
          ]
        ]

    length-map : (l : List Bytes) → length (map sha256 l) ≡ length l
    length-map [] = refl
    length-map (a ∷ l) = omega (arith, length-map l)

    merkle_of_sorted-hashed :
        (l r : List Bytes)
        → length l ≡ length r
        → merkle_of_sorted sha256 l ≡ merkle_of_sorted sha256 r
        → (l ≡ r) ⊎ Collision sha256 (λ x. IsInput sha256 x l) (λ x. IsInput sha256 x r)
    unfolding merkle_of_sorted
    merkle_of_sorted-hashed [] [] h e = inl refl
    merkle_of_sorted-hashed [] (b ∷ r) h e = absurd (omega arith)
    merkle_of_sorted-hashed (a ∷ l) [] h e = absurd (omega arith)
    merkle_of_sorted-hashed (a ∷ l) (b ∷ r) h e =
        let leaves =
          merkle_loop-hashed (length (a ∷ l)) (map sha256 (a ∷ l)) (map sha256 (b ∷ r))
            (map-Hashes (a ∷ l)) (map-Hashes (b ∷ r))
            (length-map (a ∷ l) ∙ (h ∙ sym (length-map (b ∷ r))))
            (omega (arith, length-map (a ∷ l)))
            (e ∙ ap (λ n. first sha256 (merkle_loop sha256 n (map sha256 (b ∷ r)))) (sym h)) in
        elim leaves [
          | inr x ↦ inr (Collision-map sha256 (λ y. node) (λ y. node) x)
          | inl same ↦ elim (map-hashed sha256 (a ∷ l) (b ∷ r) h same) [
            | inr x ↦ inr (Collision-map sha256 (λ y. leaf) (λ y. leaf) x)
            | inl e' ↦ inl e'
          ]
        ]

    -- Of two equally long lists of items, with hashes of 32 bytes: if one is the other in some order,
    -- they have the same root; and if they have the same root, one is the other in some order, or an
    -- item or a pair of neighbours that is hashed for the one differs from one that is hashed for the
    -- other and has the same hash.
    pub compute_merkle_root-binds :
        (items other : List Bytes)
        → length items ≡ length other
        → (Perm items other → compute_merkle_root sha256 items ≡ compute_merkle_root sha256 other)
          × (compute_merkle_root sha256 items ≡ compute_merkle_root sha256 other
              → Perm items other ⊎ RootCollision items other)
    unfolding compute_merkle_root
    compute_merkle_root-binds items other h = (
      compute_merkle_root-perm sha256,
      λ e. rearranged (
          merkle_of_sorted-hashed (sort_strings items) (sort_strings other)
            (length-sort_strings items ∙ (h ∙ sym (length-sort_strings other))) e),
    )
      where
        rearranged :
            (sort_strings items ≡ sort_strings other) ⊎ RootCollision items other
            → Perm items other ⊎ RootCollision items other
        rearranged (inr x) = inr x
        rearranged (inl same) = inl (
            Perm.trans (Perm.symm (sort_strings-Perm items))
              (subst (λ z. Perm z other) (sym same) (sort_strings-Perm other)))
