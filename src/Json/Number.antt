-- ===== src/Json/Number.antt =====
-- The numbers of the parser and the printer in src/shared/json.hpp: `std::to_string` and
-- `std::stoll` on the texts that they get, and the spans that `parse_number` cuts.
use mathlib.Core.List.{foldl}
use draind.Base.{
  ℕ, zero, suc, ◌+◌, ◌-◌, ◌*◌, ◌/◌, ◌%◌, Bool, true, false, ◌&&◌, Option, none, some, [], ◌∷◌, Text,
  ℤ, pos, negsuc, neg, int64_half, ltb, leb, if◌then◌else◌,
}

unfoldable pub is_digit : ℕ → Bool
is_digit c = leb b'0' c && leb c b'9'

-- The characters that `while (*p >= '0' && *p <= '9') ++p` passes, and what is left.
unfoldable pub span_digits : Text → Text × Text
span_digits [] = ([], [])
span_digits (c ∷ s) = let (ds, r) = span_digits s in if is_digit c then (c ∷ ds, r) else ([], c ∷ s)

-- The decimal digits of a number, least significant last, in front of `out`.
unfoldable pub digits_fuel : ℕ → ℕ → Text → Text
digits_fuel zero n out = out
digits_fuel (suc f) n out =
    let out' = (b'0' + n % 10) ∷ out in
    let more = digits_fuel f (n / 10) out' in if ltb n 10 then out' else more

unfoldable pub digits : ℕ → Text
unfolding digits_fuel
digits n = digits_fuel (suc n) n []

-- `std::to_string(int64_t)`.
unfoldable pub to_string : ℤ → Text
to_string (pos n) = digits n
to_string (negsuc n) = b'-' ∷ digits (suc n)

abbrev pub digits_value : ℕ → Text → ℕ
digits_value = foldl (λ n c. n * 10 + (c - b'0'))

unfoldable pub in_range : Bool → ℕ → Option ℤ
in_range true n = if leb n int64_half then some (neg n) else none
in_range false n = if ltb n int64_half then some (pos n) else none

-- `std::stoll` on an optional minus and digits: `none` where it throws.
unfoldable pub stoll : Bool → Text → Option ℤ
unfolding in_range
stoll minus [] = none
stoll minus (c ∷ ds) = in_range minus (digits_value 0 (c ∷ ds))
