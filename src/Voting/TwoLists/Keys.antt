-- ===== src/Voting/TwoLists/Keys.antt =====
-- Which polls a key counts for.
use community.Base.{◌≡◌, refl, ◌≢◌, true, false, [], ◌∷◌, ◌++◌, arith, All}
use community.Data.Bytes.{Bytes, has_prefix}
use community.Voting.State.{store_key, in_poll}

-- no colon in an identifier
abbrev pub NoColon : Bytes → Type 0
NoColon = All (λ c. c ≢ 58)

has_prefix-key : (p x : Bytes) → has_prefix (p ++ 58 ∷ x) (p ++ 58 ∷ []) ≡ true
unfolding has_prefix
has_prefix-key [] x = ground arith
has_prefix-key (c ∷ p) x = ground (arith, has_prefix-key p x)

-- A key of a poll counts for that poll.
pub in_poll-store_key : (p x : Bytes) → in_poll p (store_key p x) ≡ true
unfolding in_poll store_key
in_poll-store_key p x = has_prefix-key p x

not_prefix : (q x : Bytes) → NoColon x → has_prefix x (q ++ 58 ∷ []) ≡ false
unfolding has_prefix
not_prefix [] [] h = refl
not_prefix [] (c ∷ x) h = ground arith
not_prefix (a ∷ q) [] h = refl
not_prefix (a ∷ q) (c ∷ x) h = ground (arith, not_prefix q x h.1)

prefix_same :
    (q p x y : Bytes)
    → NoColon x
    → NoColon y
    → has_prefix (p ++ 58 ∷ x) (q ++ 58 ∷ []) ≡ has_prefix (p ++ 58 ∷ y) (q ++ 58 ∷ [])
unfolding has_prefix
prefix_same [] [] x y h k = refl
prefix_same [] (c ∷ p) x y h k = refl
prefix_same (a ∷ q) [] x y h k = ground (arith, not_prefix q x h, not_prefix q y k)
prefix_same (a ∷ q) (c ∷ p) x y h k = ground (arith, prefix_same q p x y h k)

-- Whether a key of poll `p` counts for poll `q` does not depend on the identifier, if that has no
-- colon.
pub in_poll-same :
    (q p x y : Bytes)
    → NoColon x
    → NoColon y
    → in_poll q (store_key p x) ≡ in_poll q (store_key p y)
unfolding in_poll store_key
in_poll-same q p x y h k = prefix_same q p x y h k

foreign : (p b x : Bytes) → has_prefix ((p ++ 58 ∷ b) ++ 58 ∷ x) (p ++ 58 ∷ []) ≡ true
unfolding has_prefix
foreign [] b x = ground arith
foreign (c ∷ p) b x = ground (arith, foreign p b x)

-- Every key of a poll whose id continues another's after a colon counts for that other poll too.
pub in_poll-foreign : (p b x : Bytes) → in_poll p (store_key (p ++ 58 ∷ b) x) ≡ true
unfolding in_poll store_key
in_poll-foreign p b x = foreign p b x

cancel : (p x y : Bytes) → p ++ 58 ∷ x ≡ p ++ 58 ∷ y → x ≡ y
cancel [] x y h = cc
cancel (c ∷ p) x y h = cancel p x y (cc)

-- Within a poll different identifiers have different keys.
pub store_key_injective : (p x y : Bytes) → store_key p x ≡ store_key p y → x ≡ y
unfolding store_key
store_key_injective p x y h = cancel p x y h
