-- ===== src/Data/GoMap/Entries.antt =====
-- A predicate on the entries of a map, through its operations.
use community.Base.{◌≡◌, true, some, [], ◌∷◌, arith, All, Bool-cases, inl, inr, subst}
use community.Data.Bytes.{Bytes, ◌==◌, ==_iff}
use community.Data.GoMap.{GoMap, lookup, insert, delete}

module _ {ℓ κ} {V : Type ℓ} (P : Bytes → V → Type κ) where
  abbrev pub Entries : GoMap V → Type κ
  Entries m = All (λ e. P e.0 e.1) m

  pub insert-Entries :
      (k : Bytes) (v : V) (m : GoMap V) → P k v → Entries m → Entries (insert k v m)
  unfolding insert
  insert-Entries k v [] p h = (p, tt)
  insert-Entries k v ((j, w) ∷ m) p h = elim (Bool-cases (j == k)) [
    | inl e ↦ rw (e, insert) (p, h.1)
    | inr e ↦ rw (e, insert) (h.0, insert-Entries k v m p h.1)
  ]

  pub delete-Entries : (k : Bytes) (m : GoMap V) → Entries m → Entries (delete k m)
  unfolding delete
  delete-Entries k [] h = tt
  delete-Entries k ((j, w) ∷ m) h = elim (Bool-cases (j == k)) [
    | inl e ↦ rw (e, delete) h.1
    | inr e ↦ rw (e, delete) (h.0, delete-Entries k m h.1)
  ]

  pub lookup-Entries : (k : Bytes) (v : V) (m : GoMap V) → lookup k m ≡ some v → Entries m → P k v
  unfolding lookup
  lookup-Entries k v [] e h = absurd (ground arith)
  lookup-Entries k v ((j, w) ∷ m) e h = elim (Bool-cases (j == k)) [
    | inl s ↦ subst (λ x. P x v) ((==_iff j k).0 s) (subst (P j) (found s) h.0)
    | inr s ↦ lookup-Entries k v m (ground arith) h.1
  ]
    where
      found : (j == k) ≡ true → w ≡ v
      found s = ground arith

-- What follows from two predicates holds of every entry for which both do.
pub Entries-both {ℓ} :
    {V : Type ℓ} (P Q R : Bytes → V → Type 0) (m : GoMap V)
    → ((k : Bytes) (v : V) → P k v → Q k v → R k v)
    → Entries P m
    → Entries Q m
    → Entries R m
Entries-both P Q R [] h p q = tt
Entries-both P Q R ((k, v) ∷ m) h p q = (h k v p.0 q.0, Entries-both P Q R m h p.1 q.1)
