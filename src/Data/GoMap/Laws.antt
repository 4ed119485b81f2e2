-- ===== src/Data/GoMap/Laws.antt =====
-- What a map holds after an insertion or a deletion.
use community.Base.{◌≡◌, refl, ◌≢◌, none, some, [], ◌∷◌, arith, if◌then◌else◌}
use community.Data.Bytes.{Bytes, ◌==◌, ==_iff}
use community.Data.GoMap.{GoMap, lookup, insert, delete, Unique}

module _ {ℓ} {V : Type ℓ} where
  pub lookup-insert :
      (j k : Bytes) (v : V) (m : GoMap V)
      → lookup j (insert k v m) ≡ (if k == j then some v else lookup j m)
  unfolding lookup insert
  lookup-insert j k v [] = refl
  lookup-insert j k v ((i, w) ∷ m) =
      ground (arith, ==_iff k j, ==_iff i k, ==_iff i j, lookup-insert j k v m)

  pub lookup-insert_self : (k : Bytes) (v : V) (m : GoMap V) → lookup k (insert k v m) ≡ some v
  lookup-insert_self k v m = ground (arith, lookup-insert k k v m, ==_iff k k)

  pub lookup-delete :
      (j k : Bytes) (m : GoMap V)
      → Unique m
      → lookup j (delete k m) ≡ (if k == j then none else lookup j m)
  unfolding lookup delete
  lookup-delete j k [] u = ground arith
  lookup-delete j k ((i, w) ∷ m) u =
      ground (arith, ==_iff k j, ==_iff i k, ==_iff i j, lookup-delete j k m u.1)

  pub lookup-delete_ne : (j k : Bytes) (m : GoMap V) → j ≢ k → lookup j (delete k m) ≡ lookup j m
  unfolding lookup delete
  lookup-delete_ne j k [] h = refl
  lookup-delete_ne j k ((i, w) ∷ m) h =
      ground (arith, ==_iff i k, ==_iff i j, lookup-delete_ne j k m h)

  pub insert-Unique : (k : Bytes) (v : V) (m : GoMap V) → Unique m → Unique (insert k v m)
  unfolding lookup insert
  insert-Unique k v [] u = (refl, tt)
  insert-Unique k v ((i, w) ∷ m) u =
      ground (arith, ==_iff i k, ==_iff k i, insert-Unique k v m u.1, lookup-insert i k v m)

  pub delete-Unique : (k : Bytes) (m : GoMap V) → Unique m → Unique (delete k m)
  unfolding lookup delete
  delete-Unique k [] u = tt
  delete-Unique k ((i, w) ∷ m) u =
      ground (arith, ==_iff i k, ==_iff k i, delete-Unique k m u.1, lookup-delete_ne i k m)
