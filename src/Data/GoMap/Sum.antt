-- ===== src/Data/GoMap/Sum.antt =====
-- A sum over the entries of a map, and how an insertion changes it.
use community.Base.{ℕ, ◌+◌, ◌≤◌, ◌≡◌, refl, none, some, [], ◌∷◌, arith}
use community.Data.Bytes.{Bytes, ==_iff}
use community.Data.GoMap.{GoMap, lookup, insert}

module _ {ℓ} {V : Type ℓ} (f : V → ℕ) where
  unfoldable pub sum : GoMap V → ℕ
  sum [] = 0
  sum ((k, v) ∷ m) = f v + sum m

  pub sum-insert_new :
      (k : Bytes) (v : V) (m : GoMap V) → lookup k m ≡ none → sum (insert k v m) ≡ f v + sum m
  unfolding lookup insert sum
  sum-insert_new k v [] h = refl
  sum-insert_new k v ((i, w) ∷ m) h = ground (arith, sum-insert_new k v m)

  pub sum-insert_old :
      (k : Bytes) (v old : V) (m : GoMap V)
      → lookup k m ≡ some old
      → sum (insert k v m) + f old ≡ f v + sum m
  unfolding lookup insert sum
  sum-insert_old k v old [] h = ground arith
  sum-insert_old k v old ((i, w) ∷ m) h = ground (arith, ==_iff i k, sum-insert_old k v old m)

  pub le-sum : (k : Bytes) (v : V) (m : GoMap V) → lookup k m ≡ some v → f v ≤ sum m
  unfolding lookup sum
  le-sum k v [] h = absurd (ground arith)
  le-sum k v ((i, w) ∷ m) h = ground (arith, le-sum k v m)
