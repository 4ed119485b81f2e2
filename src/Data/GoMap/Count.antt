-- ===== src/Data/GoMap/Count.antt =====
-- How an insertion or a deletion changes the number of entries that pass a test.
use community.Base.{◌+◌, ◌≡◌, refl, Bool, false, none, some, [], ◌∷◌, arith, to_nat}
use community.Data.Bytes.{Bytes, ==_iff}
use community.Data.GoMap.{GoMap, lookup, insert, delete, count}

module _ {ℓ} {V : Type ℓ} (p : Bytes → V → Bool) where
  pub count-insert_new :
      (k : Bytes) (v : V) (m : GoMap V)
      → lookup k m ≡ none
      → count p (insert k v m) ≡ to_nat (p k v) + count p m
  unfolding lookup insert count
  count-insert_new k v [] h = refl
  count-insert_new k v ((i, w) ∷ m) h = ground (arith, count-insert_new k v m)

  pub count-insert_old :
      (k : Bytes) (v old : V) (m : GoMap V)
      → lookup k m ≡ some old
      → count p (insert k v m) + to_nat (p k old) ≡ to_nat (p k v) + count p m
  unfolding lookup insert count
  count-insert_old k v old [] h = ground arith
  count-insert_old k v old ((i, w) ∷ m) h = ground (arith, ==_iff i k, count-insert_old k v old m)

  pub count-delete :
      (k : Bytes) (old : V) (m : GoMap V)
      → lookup k m ≡ some old
      → to_nat (p k old) + count p (delete k m) ≡ count p m
  unfolding lookup delete count
  count-delete k old [] h = ground arith
  count-delete k old ((i, w) ∷ m) h = ground (arith, ==_iff i k, count-delete k old m)

  -- A key that the test refuses with any value does not count.
  pub count-insert_skip :
      (k : Bytes) (v : V) (m : GoMap V)
      → ((w : V) → p k w ≡ false)
      → count p (insert k v m) ≡ count p m
  unfolding insert count
  count-insert_skip k v [] h = ground (arith, h v)
  count-insert_skip k v ((i, w) ∷ m) h =
      ground (arith, ==_iff i k, h v, h w, count-insert_skip k v m h)

  pub count-delete_skip :
      (k : Bytes) (m : GoMap V) → ((w : V) → p k w ≡ false) → count p (delete k m) ≡ count p m
  unfolding delete count
  count-delete_skip k [] h = refl
  count-delete_skip k ((i, w) ∷ m) h = ground (arith, ==_iff i k, h w, count-delete_skip k m h)
