-- ===== src/Voting/Attestation/Merkle/Collision.antt =====
-- domain/state/tallies.go, `computeMerkleRoot`: what is hashed, and when two hashes collide.
use mathlib.Core.List.{Memᴰ}
use mathlib.Core.List.{head-eq_of_cons-eq, tail-eq_of_cons-eq}
use community.Base.{
  ◌≡◌, ◌≢◌, refl, ap₂, List, [], ◌∷◌, ◌++◌, map, arith, length, ◌⊎◌, inl, inr, Bool-cases,
}
use community.Data.Bytes.{Bytes, ◌==◌, ==_iff}
use community.Voting.Attestation.Merkle.{next_level}

-- two different inputs with one hash, the left one of one kind and the right one of another
pub record Collision (sha256 : Bytes → Bytes) (P Q : Bytes → Type 0) : Type 0 where
  pub left : Bytes
  pub right : Bytes
  pub different : left ≢ right
  pub collide : sha256 left ≡ sha256 right
  pub of_left : P left
  pub of_right : Q right

-- what is hashed on a level: two neighbours
pub data IsPair (x : Bytes) : List Bytes → Type 0 where
  here : (a b : Bytes) {l : List Bytes} → x ≡ a ++ b → IsPair x (a ∷ b ∷ l)
  there : (a b : Bytes) {l : List Bytes} → IsPair x l → IsPair x (a ∷ b ∷ l)

module _ (sha256 : Bytes → Bytes) where
  pub Collision-map :
      {P Q P' Q' : Bytes → Type 0}
      → ((x : Bytes) → P x → P' x)
      → ((x : Bytes) → Q x → Q' x)
      → Collision sha256 P Q
      → Collision sha256 P' Q'
  Collision-map f g c = record {
    left = c.left;
    right = c.right;
    different = c.different;
    collide = c.collide;
    of_left = f c.left c.of_left;
    of_right = g c.right c.of_right;
  }

  -- Equal hashes are those of equal inputs, or there is a collision.
  pub hashed :
      {P Q : Bytes → Type 0} (a b : Bytes)
      → P a
      → Q b
      → sha256 a ≡ sha256 b
      → (a ≡ b) ⊎ Collision sha256 P Q
  hashed a b of_a of_b e = elim (Bool-cases (a == b)) [
    | inl same ↦ inl ((==_iff a b).0 same)
    | inr other ↦ inr (record {
      left = a;
      right = b;
      different = λ e'. absurd (ground (arith, (==_iff a b).1 e'));
      collide = e;
      of_left = of_a;
      of_right = of_b;
    })
  ]

  pub map-hashed :
      (l r : List Bytes)
      → length l ≡ length r
      → map sha256 l ≡ map sha256 r
      → (l ≡ r) ⊎ Collision sha256 (λ x. Memᴰ x l) (λ x. Memᴰ x r)
  map-hashed [] [] h e = inl refl
  map-hashed [] (b ∷ r) h e = absurd (omega arith)
  map-hashed (a ∷ l) [] h e = absurd (omega arith)
  map-hashed (a ∷ l) (b ∷ r) h e =
      elim (hashed a b (Memᴰ.head refl) (Memᴰ.head refl) (head-eq_of_cons-eq e)) [
        | inr c ↦ inr c
        | inl same ↦ elim (map-hashed l r (omega arith) (tail-eq_of_cons-eq e)) [
          | inr c ↦ inr (Collision-map (λ x m. Memᴰ.tail m) (λ x m. Memᴰ.tail m) c)
          | inl rest ↦ inl (ap₂ ◌∷◌ same rest)
        ]
      ]

  -- what is hashed on a level or above it
  pub data IsNode (x : Bytes) : List Bytes → Type 0 where
    level : {l : List Bytes} → IsPair x l → IsNode x l
    above : {l : List Bytes} → IsNode x (next_level sha256 l) → IsNode x l

  -- what is hashed for the root of sorted items: an item, or two neighbours of a level
  pub data IsInput (x : Bytes) (items : List Bytes) : Type 0 where
    leaf : Memᴰ x items → IsInput x items
    node : IsNode x (map sha256 items) → IsInput x items
