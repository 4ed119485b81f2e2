-- ===== src/Data/Base64.antt =====
-- `base64.StdEncoding.DecodeString`: line breaks are skipped, groups of four with padding at the
-- end, unused low bits ignored.
use community.Base.{
  ℕ, ◌+◌, ◌-◌, ◌*◌, ◌/◌, ◌%◌, ◌≡◌, refl, ◌&&◌, ◌||◌, Option, none, some, [], ◌∷◌, leb, eqb,
  is_empty, if◌then◌else◌,
}
use community.Data.Bytes.{Bytes, bytes}

base64_value : ℕ → Option ℕ
base64_value c =
    if leb b'A' c && leb c b'Z'
    then some (c - b'A')
    else if leb b'a' c && leb c b'z'
    then some (c - b'a' + 26)
    else if leb b'0' c && leb c b'9'
    then some (c - b'0' + 52)
    else if eqb c b'+'
    then some 62
    else if eqb c b'/'
    then some 63
    else none

strip_newlines : Bytes → Bytes
strip_newlines [] = []
strip_newlines (c ∷ s) =
    let rest = strip_newlines s in if eqb c 10 || eqb c 13 then rest else c ∷ rest

abbrev quad_1 : Option ℕ → Option ℕ → Option Bytes
quad_1 (some a) (some b) = some ((a * 4 + b / 16) ∷ [])
quad_1 _ _ = none

abbrev quad_2 : Option ℕ → Option ℕ → Option ℕ → Option Bytes
quad_2 (some a) (some b) (some c) = some ((a * 4 + b / 16) ∷ (b % 16 * 16 + c / 4) ∷ [])
quad_2 _ _ _ = none

abbrev quad_3 : Option ℕ → Option ℕ → Option ℕ → Option ℕ → Option Bytes → Option Bytes
quad_3 (some a) (some b) (some c) (some d) (some rest) =
    some ((a * 4 + b / 16) ∷ (b % 16 * 16 + c / 4) ∷ (c % 4 * 64 + d) ∷ rest)
quad_3 _ _ _ _ _ = none

quads : Bytes → Option Bytes
unfolding base64_value
quads [] = some []
quads (a ∷ b ∷ c ∷ d ∷ s) =
    let rest = quads s in
    if eqb d b'='
    then if is_empty s
      then if eqb c b'='
        then quad_1 (base64_value a) (base64_value b)
        else quad_2 (base64_value a) (base64_value b) (base64_value c)
      else none
    else quad_3 (base64_value a) (base64_value b) (base64_value c) (base64_value d) rest
quads _ = none

unfoldable pub base64_decode : Bytes → Option Bytes
unfolding quads strip_newlines
base64_decode s = quads (strip_newlines s)

base64_decode-padded : base64_decode (bytes "aGVsbG8=") ≡ some (bytes "hello")
unfolding base64_decode
base64_decode-padded = refl

base64_decode-truncated : base64_decode (bytes "aGVsbG8") ≡ none
unfolding base64_decode
base64_decode-truncated = refl
