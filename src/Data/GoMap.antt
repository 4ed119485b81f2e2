-- ===== src/Data/GoMap.antt =====
-- A Go `map[string]V`, as an association list whose order nobody may rely on. The laws are in the
-- modules below.
pub mod Laws
pub mod Count
pub mod Entries
pub mod Sum
use community.Base.{
  ℕ, ◌+◌, ◌≡◌, Bool, true, false, Option, none, some, List, [], ◌∷◌, map, if◌then◌else◌, to_nat,
}
use community.Data.Bytes.{Bytes, ◌==◌}

abbrev pub GoMap {ℓ} : Type ℓ → Type ℓ
GoMap V = List (Bytes × V)

module _ {ℓ} {V : Type ℓ} where
  -- `v, ok := m[k]`
  unfoldable pub lookup : Bytes → GoMap V → Option V
  lookup k [] = none
  lookup k ((j, v) ∷ m) = if j == k then some v else lookup k m

  -- `m[k] = v`
  unfoldable pub insert : Bytes → V → GoMap V → GoMap V
  insert k v [] = (k, v) ∷ []
  insert k v ((j, w) ∷ m) = if j == k then (k, v) ∷ m else (j, w) ∷ insert k v m

  -- `delete(m, k)`
  unfoldable pub delete : Bytes → GoMap V → GoMap V
  delete k [] = []
  delete k ((j, w) ∷ m) = if j == k then m else (j, w) ∷ delete k m

  -- A map holds a key once.
  abbrev pub Unique : GoMap V → Type ℓ
  Unique [] = Unit
  Unique ((k, v) ∷ m) = (lookup k m ≡ none) × Unique m

  -- How many entries pass a test: a loop over the map that counts.
  unfoldable pub count : (Bytes → V → Bool) → GoMap V → ℕ
  count p [] = 0
  count p ((k, v) ∷ m) = to_nat (p k v) + count p m
