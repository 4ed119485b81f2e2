-- ===== src/Data/Hex.antt =====
-- `encoding/hex`: `EncodeToString` writes lower case, `DecodeString` reads either case and refuses
-- an odd length and any other byte.
use community.Base.{
  ℕ, ◌+◌, ◌-◌, ◌*◌, ◌/◌, ◌%◌, ◌<◌, ◌≡◌, refl, ◌≢◌, ◌&&◌, Option, none, some, [], ◌∷◌, arith, ltb,
  leb, All, if◌then◌else◌,
}
use community.Data.Bytes.{Bytes}

hex_digit : ℕ → ℕ
hex_digit n = if ltb n 10 then 48 + n else 87 + n

unfoldable pub hex_encode : Bytes → Bytes
unfolding hex_digit
hex_encode [] = []
hex_encode (b ∷ s) = hex_digit (b / 16) ∷ hex_digit (b % 16) ∷ hex_encode s

hex_value : ℕ → Option ℕ
hex_value c =
    if leb 48 c && leb c 57
    then some (c - 48)
    else if leb 97 c && leb c 102
    then some (c - 87)
    else if leb 65 c && leb c 70
    then some (c - 55)
    else none

abbrev pair_byte : Option ℕ → Option ℕ → Option Bytes → Option Bytes
pair_byte (some a) (some b) (some s) = some ((16 * a + b) ∷ s)
pair_byte _ _ _ = none

unfoldable pub hex_decode : Bytes → Option Bytes
unfolding hex_value
hex_decode [] = some []
hex_decode (a ∷ []) = none
hex_decode (a ∷ b ∷ s) = pair_byte (hex_value a) (hex_value b) (hex_decode s)

hex_value-hex_digit : (n : ℕ) → n < 16 → hex_value (hex_digit n) ≡ some n
unfolding hex_value hex_digit
hex_value-hex_digit n h = ground arith

-- What is encoded decodes to itself.
pub hex_decode-hex_encode : (s : Bytes) → All (λ b. b < 256) s → hex_decode (hex_encode s) ≡ some s
unfolding hex_decode hex_encode
hex_decode-hex_encode [] h = refl
hex_decode-hex_encode (b ∷ s) h =
    unfold hex_decode hex_encode in
    ground (
      arith,
      hex_value-hex_digit (b / 16) (omega arith),
      hex_value-hex_digit (b % 16) (omega arith),
      hex_decode-hex_encode s h.1,
    )

-- No digit is the colon that separates the parts of a key.
hex_digit-ne-colon : (n : ℕ) → hex_digit n ≢ 58
unfolding hex_digit
hex_digit-ne-colon n h = ground arith

pub hex_encode-NoColon : (s : Bytes) → All (λ c. c ≢ 58) (hex_encode s)
unfolding hex_encode
hex_encode-NoColon [] = tt
hex_encode-NoColon (b ∷ s) =
    (hex_digit-ne-colon (b / 16), (hex_digit-ne-colon (b % 16), hex_encode-NoColon s))
