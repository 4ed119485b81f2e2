-- ===== src/Data/Bytes/Order.antt =====
-- Go's `<` on strings, bytewise and lexicographic, and that `<=` is a total order.
use community.Base.{ℕ, ◌≡◌, refl, Bool, true, false, [], ◌∷◌, List, arith, eqb, ltb, if◌then◌else◌}

-- `s <= t`
unfoldable pub leb_bytes : List ℕ → List ℕ → Bool
leb_bytes [] t = true
leb_bytes (a ∷ s) [] = false
leb_bytes (a ∷ s) (b ∷ t) = let rest = leb_bytes s t in if eqb a b then rest else ltb a b

pub leb_bytes_total : (s t : List ℕ) → leb_bytes s t ≡ false → leb_bytes t s ≡ true
unfolding leb_bytes
leb_bytes_total [] t h = ground arith
leb_bytes_total (a ∷ s) [] h = refl
leb_bytes_total (a ∷ s) (b ∷ t) h = ground (arith, leb_bytes_total s t)

pub leb_bytes_antisym : (s t : List ℕ) → leb_bytes s t ≡ true → leb_bytes t s ≡ true → s ≡ t
unfolding leb_bytes
leb_bytes_antisym [] [] h k = refl
leb_bytes_antisym [] (b ∷ t) h k = ground arith
leb_bytes_antisym (a ∷ s) [] h k = ground arith
leb_bytes_antisym (a ∷ s) (b ∷ t) h k = ground (arith, leb_bytes_antisym s t)

pub leb_bytes_trans :
    (s t u : List ℕ) → leb_bytes s t ≡ true → leb_bytes t u ≡ true → leb_bytes s u ≡ true
unfolding leb_bytes
leb_bytes_trans [] t u h k = refl
leb_bytes_trans (a ∷ s) [] u h k = ground arith
leb_bytes_trans (a ∷ s) (b ∷ t) [] h k = ground arith
leb_bytes_trans (a ∷ s) (b ∷ t) (c ∷ u) h k = ground (arith, leb_bytes_trans s t u)
