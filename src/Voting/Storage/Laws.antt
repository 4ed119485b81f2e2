-- ===== src/Voting/Storage/Laws.antt =====
-- What the loops of `Commit` leave in the store, and what `loadPrefix` finds in it.
use community.Base.{
  ◌≡◌, refl, sym, ap, ◌∙◌, subst, true, false, Option, none, some, [], ◌∷◌, ◌++◌, arith, Bool-cases,
  Option-cases, inl, inr,
}
use community.Data.Bytes.{Bytes, ◌==◌, ==_iff, has_prefix, has_prefix-append}
use community.Data.GoMap.{GoMap, lookup, insert, Unique}
use community.Data.GoMap.Laws.{lookup-insert}
use community.Voting.Storage.{Codec, Database, put_all, drop_bytes, load_prefix, given_key}

append_same : (p j k : Bytes) → ((p ++ j) == (p ++ k)) ≡ (j == k)
unfolding ◌==◌
append_same [] j k = refl
append_same (c ∷ p) j k = ground (arith, append_same p j k)

-- A key without the prefix is none of the keys with it.
pub has_prefix-ne : (p j key : Bytes) → has_prefix key p ≡ false → ((p ++ j) == key) ≡ false
has_prefix-ne p j key h = elim (Bool-cases ((p ++ j) == key)) [
  | inl e ↦ absurd (
      ground (
        arith,
        subst (λ x. has_prefix x p ≡ true) ((==_iff (p ++ j) key).0 e) (has_prefix-append p j),
      ))
  | inr e ↦ e
]

module _ {V : Type 0} (c : Codec V) where
  -- The entry of the map, or else what the store had.
  abbrev pub overlay : Bytes → Option V → Database → Option Bytes
  overlay key none db = lookup key db
  overlay key (some v) db = some (c.encode v)

  pub lookup-put_all :
      (p k : Bytes) (m : GoMap V) (db : Database)
      → Unique m
      → lookup (p ++ k) (put_all c p m db) ≡ overlay (p ++ k) (lookup k m) db
  unfolding put_all lookup
  lookup-put_all p k [] db u = refl
  lookup-put_all p k ((j, v) ∷ m) db u = ground (
    arith,
    lookup-put_all p k m (insert (p ++ j) (c.encode v) db) u.1,
    lookup-insert (p ++ k) (p ++ j) (c.encode v) db,
    append_same p j k,
    ==_iff j k,
  )

  pub lookup-put_all_other :
      (p key : Bytes) (m : GoMap V) (db : Database)
      → has_prefix key p ≡ false
      → lookup key (put_all c p m db) ≡ lookup key db
  unfolding put_all
  lookup-put_all_other p key [] db h = refl
  lookup-put_all_other p key ((j, v) ∷ m) db h = ground (
    arith,
    lookup-put_all_other p key m (insert (p ++ j) (c.encode v) db) h,
    lookup-insert key (p ++ j) (c.encode v) db,
    has_prefix-ne p j key h,
  )

drop_bytes-append : (p s : Bytes) → has_prefix s p ≡ true → p ++ drop_bytes p s ≡ s
unfolding drop_bytes has_prefix
drop_bytes-append [] s h = refl
drop_bytes-append (c ∷ p) [] h = absurd (ground arith)
drop_bytes-append (c ∷ p) (d ∷ s) h = ground (arith, drop_bytes-append p s)

module _ {V : Type 0} (c : Codec V) where
  abbrev pub decoded : Option Bytes → Option V
  decoded none = none
  decoded (some raw) = c.decode raw

  same_key : (p k j : Bytes) → has_prefix j p ≡ true → (drop_bytes p j == k) ≡ (j == (p ++ k))
  same_key p k j h =
      sym (append_same p (drop_bytes p j) k) ∙ ap (λ x. x == (p ++ k)) (drop_bytes-append p j h)

  other_key : (p k j : Bytes) → has_prefix j p ≡ false → (j == (p ++ k)) ≡ false
  other_key p k j h = ground (arith, has_prefix-ne p k j h, ==_iff (p ++ k) j, ==_iff j (p ++ k))

  -- What is loaded under a key is the decoded value of the store's key.
  pub lookup-load_prefix :
      (p k : Bytes) (m : GoMap V) (db : Database)
      → load_prefix c p given_key db ≡ some m
      → lookup k m ≡ decoded (lookup (p ++ k) db)
  unfolding load_prefix lookup
  lookup-load_prefix p k m [] h = ground arith
  lookup-load_prefix p k m ((j, raw) ∷ db) h = elim (Bool-cases (has_prefix j p)) [
    | inl e ↦ elim (Option-cases (c.decode raw)) [
      | inl f ↦ absurd (ground arith)
      | inr (v, f) ↦ elim (Option-cases (load_prefix c p given_key db)) [
        | inl g ↦ absurd (ground arith)
        | inr (m', g) ↦ ground (
          arith,
          lookup-load_prefix p k m' db g,
          same_key p k j e,
          lookup-insert k (drop_bytes p j) v m',
        )
      ]
    ]
    | inr e ↦ ground (arith, lookup-load_prefix p k m db, other_key p k j e)
  ]
