-- ===== src/Data/Sort.antt =====
-- `sort.Strings`, which the program uses to make its hashes independent of map order. The result
-- of a sort is determined by what is sorted, so any correct sort will do for the model.
use mathlib.Core.Logic.{∥∥₁_elim}
use mathlib.Core.List.{Perm, Permᴰ}
use mathlib.Core.List.Perm
use community.Base.{
  suc, length, ◌≡◌, refl, ap₂, ◌∙◌, List, [], ◌∷◌, arith, if◌then◌else◌, Bool-cases, inl, inr,
}
use community.Data.Bytes.{Bytes}
use community.Data.Bytes.Order.{leb_bytes, leb_bytes_total, leb_bytes_antisym, leb_bytes_trans}

insert_sorted : Bytes → List Bytes → List Bytes
insert_sorted x [] = x ∷ []
insert_sorted x (y ∷ ys) =
    let rest = insert_sorted x ys in if leb_bytes x y then x ∷ y ∷ ys else y ∷ rest

unfoldable pub sort_strings : List Bytes → List Bytes
unfolding insert_sorted
sort_strings [] = []
sort_strings (x ∷ xs) = insert_sorted x (sort_strings xs)

insert_sorted_comm :
    (x y : Bytes) (l : List Bytes)
    → insert_sorted x (insert_sorted y l) ≡ insert_sorted y (insert_sorted x l)
unfolding insert_sorted
insert_sorted_comm x y [] =
    ground (arith, leb_bytes_total x y, leb_bytes_total y x, leb_bytes_antisym x y)
insert_sorted_comm x y (z ∷ l) = ground (
  arith,
  insert_sorted_comm x y l,
  leb_bytes_total x y,
  leb_bytes_total y x,
  leb_bytes_antisym x y,
  leb_bytes_total x z,
  leb_bytes_total y z,
  leb_bytes_trans x y z,
  leb_bytes_trans y x z,
)

sort_strings-permᴰ : {l r : List Bytes} → Permᴰ l r → sort_strings l ≡ sort_strings r
unfolding sort_strings
sort_strings-permᴰ Permᴰ.nil = refl
sort_strings-permᴰ (Permᴰ.cons e p) = ap₂ insert_sorted e (sort_strings-permᴰ p)
sort_strings-permᴰ (Permᴰ.swap {a = a} {b = b} {l = l} e f) =
    insert_sorted_comm a b (sort_strings l) ∙ ap₂ insert_sorted f (ap₂ insert_sorted e refl)
sort_strings-permᴰ (Permᴰ.trans p q) = sort_strings-permᴰ p ∙ sort_strings-permᴰ q

Lists-set : IsSet (List Bytes)
Lists-set = hlevel

-- Two arrangements of the same strings have one sorted list.
pub sort_strings-perm : {l r : List Bytes} → Perm l r → sort_strings l ≡ sort_strings r
sort_strings-perm p = ∥∥₁_elim p (Lists-set _ _) sort_strings-permᴰ

length-insert_sorted : (x : Bytes) (l : List Bytes) → length (insert_sorted x l) ≡ suc (length l)
unfolding insert_sorted
length-insert_sorted x [] = refl
length-insert_sorted x (y ∷ l) = ground (arith, length-insert_sorted x l)

pub length-sort_strings : (l : List Bytes) → length (sort_strings l) ≡ length l
unfolding sort_strings
length-sort_strings [] = refl
length-sort_strings (x ∷ l) =
    ground (arith, length-insert_sorted x (sort_strings l), length-sort_strings l)

insert_sorted-Perm : (x : Bytes) (l : List Bytes) → Perm (insert_sorted x l) (x ∷ l)
unfolding insert_sorted
insert_sorted-Perm x [] = Perm.refl (x ∷ [])
insert_sorted-Perm x (y ∷ l) =
    let moved = Perm.trans (Perm.cons y (insert_sorted-Perm x l)) (Perm.swap x y l) in
    elim (Bool-cases (leb_bytes x y)) [
      | inl e ↦ rw (e, insert_sorted) (Perm.refl (x ∷ y ∷ l))
      | inr e ↦ rw (e, insert_sorted) moved
    ]

-- A sort rearranges.
pub sort_strings-Perm : (l : List Bytes) → Perm (sort_strings l) l
unfolding sort_strings
sort_strings-Perm [] = Perm.nil
sort_strings-Perm (x ∷ l) =
    Perm.trans (insert_sorted-Perm x (sort_strings l)) (Perm.cons x (sort_strings-Perm l))
