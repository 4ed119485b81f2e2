-- ===== src/Voting/Authority/Messages.antt =====
-- What the messages that the authorities and the devices sign tell apart.
use community.Base.{◌≡◌, ◌≢◌, refl, ap, sym, ◌∙◌, [], ◌∷◌, ◌++◌, arith, append_assoc}
use community.Data.Bytes.{Bytes, bytes}
use community.Voting.Authority.{bound_fields, rescind_message, restore_message}
use community.Voting.TwoLists.Keys.{NoColon}

-- A field without a colon ends at the first one.
split_field :
    (x y r t : Bytes) → NoColon x → NoColon y → x ++ 58 ∷ r ≡ y ++ 58 ∷ t → (x ≡ y) × (r ≡ t)
split_field [] [] r t hx hy e = (refl, cc)
split_field [] (c ∷ y) r t hx hy e = absurd (ground arith)
split_field (c ∷ x) [] r t hx hy e = absurd (ground arith)
split_field (c ∷ x) (d ∷ y) r t hx hy e =
    let (ex, er) = split_field x y r t hx.1 hy.1 (ground arith) in (ground arith, er)

fields_injective :
    (p b i r p' b' i' r' : Bytes)
    → NoColon p × NoColon b × NoColon i
    → NoColon p' × NoColon b' × NoColon i'
    → bound_fields p b i r ≡ bound_fields p' b' i' r'
    → (p ≡ p') × (b ≡ b') × (i ≡ i') × (r ≡ r')
unfolding bound_fields
fields_injective p b i r p' b' i' r' (hp, hb, hi) (hp', hb', hi') e =
    let (ep, e1) = split_field p p' _ _ hp hp' e in
    let (eb, e2) = split_field b b' _ _ hb hb' e1 in
    let (ei, er) = split_field i i' _ _ hi hi' e2 in (ep, eb, ei, er)

drop_tag : (tag x y : Bytes) → tag ++ x ≡ tag ++ y → x ≡ y
drop_tag [] x y e = e
drop_tag (c ∷ tag) x y e = drop_tag tag x y (ground arith)

-- Two rescission messages, with any reference and no colon in the poll, ballot and identity, are the
-- same only if all four fields are.
pub rescind_message-injective :
    (p b i r p' b' i' r' : Bytes)
    → NoColon p × NoColon b × NoColon i
    → NoColon p' × NoColon b' × NoColon i'
    → rescind_message p b i r ≡ rescind_message p' b' i' r'
    → (p ≡ p') × (b ≡ b') × (i ≡ i') × (r ≡ r')
unfolding rescind_message
rescind_message-injective p b i r p' b' i' r' h h' e =
    fields_injective p b i r p' b' i' r' h h'
      (drop_tag (bytes "authority-rescind:") (bound_fields p b i r) (bound_fields p' b' i' r') e)

regroup :
    (p x b rest : Bytes) → (p ++ 58 ∷ x) ++ (58 ∷ (b ++ rest)) ≡ p ++ (58 ∷ ((x ++ 58 ∷ b) ++ rest))
regroup p x b rest =
    append_assoc p (58 ∷ x) (58 ∷ (b ++ rest))
    ∙ ap (λ y. p ++ 58 ∷ y) (sym (append_assoc x (58 ∷ b) rest))

-- A poll id with a colon and a poll id without it have one and the same rescission message for
-- ballot ids that make up the difference.
pub rescind_message-collides :
    (p x b i r : Bytes) → rescind_message (p ++ 58 ∷ x) b i r ≡ rescind_message p (x ++ 58 ∷ b) i r
unfolding rescind_message bound_fields
rescind_message-collides p x b i r = ap (λ y. bytes "authority-rescind:" ++ y) (regroup p x b _)

-- No signature for a rescission is one for a restoration: the messages differ, whatever the fields.
pub rescind-restore_message :
    (p b i r p' b' i' r' : Bytes) → rescind_message p b i r ≢ restore_message p' b' i' r'
unfolding rescind_message restore_message
rescind-restore_message p b i r p' b' i' r' e = absurd (ground arith)
