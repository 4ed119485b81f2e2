-- ===== src/Data/Decimal.antt =====
-- `fmt.Sprintf("%d", n)` of an `int64`. Twenty digits are enough for every magnitude below 10^20.
use community.Base.{ℕ, zero, suc, ◌+◌, ◌/◌, ◌%◌, ◌≡◌, refl, [], ◌∷◌, ltb, if◌then◌else◌}
use community.Data.Bytes.{Bytes, bytes}
use community.Data.Int64.{ℤ, pos, negsuc}

-- the digits of `n` in front of `rest`
digits_onto : ℕ → ℕ → Bytes → Bytes
digits_onto zero n rest = rest
digits_onto (suc fuel) n rest =
    let more = digits_onto fuel (n / 10) ((48 + n % 10) ∷ rest) in
    if ltb n 10 then (48 + n) ∷ rest else more

unfoldable pub format_dec : ℤ → Bytes
unfolding digits_onto
format_dec (pos n) = digits_onto 20 n []
format_dec (negsuc n) = b'-' ∷ digits_onto 20 (suc n) []

format_dec-minus_forty_two : format_dec (negsuc 41) ≡ bytes "-42"
unfolding format_dec
format_dec-minus_forty_two = refl

format_dec-largest : format_dec (pos 9223372036854775807) ≡ bytes "9223372036854775807"
unfolding format_dec
format_dec-largest = refl
