-- ===== src/Json/Digits.antt =====
-- What `std::to_string` prints is read back by the number scanner of src/shared/json.hpp.
use draind.Base.{
  ℕ, zero, suc, ◌+◌, ◌-◌, ◌*◌, ◌/◌, ◌%◌, ◌<◌, ◌≤◌, ◌≡◌, refl, true, false, ◌||◌, some, [], ◌∷◌,
  ◌++◌, Text, All, ℤ, pos, negsuc, int64_half, InSigned, ltb, ◌==◌, ok, arith, ap, sym, ◌∙◌, subst,
  Bool-cases, inl, inr,
}
use draind.Json.Value.{Floats, int}
use draind.Json.Number.{
  is_digit, span_digits, digits_fuel, digits, to_string, digits_value, in_range, stoll,
}
use draind.Json.Parser.{peek, frac_part, exp_part, converted, number_value, parse_number}

-- No number goes on at the front of `r`.
abbrev pub Stops : Text → Type 0
Stops r = (is_digit (peek r) || (peek r == b'.' || (peek r == b'e' || peek r == b'E'))) ≡ false

abbrev AreDigits : Text → Type 0
AreDigits = All (λ c. is_digit c ≡ true)

digits_fuel-AreDigits : (f n : ℕ) (out : Text) → AreDigits out → AreDigits (digits_fuel f n out)
unfolding digits_fuel is_digit
digits_fuel-AreDigits zero n out h = h
digits_fuel-AreDigits (suc f) n out h =
    let last : is_digit (b'0' + n % 10) ≡ true = ground arith in
    elim (Bool-cases (ltb n 10)) [
      | inl e ↦ rw e (last, h)
      | inr e ↦ rw e (digits_fuel-AreDigits f (n / 10) _ (last, h))
    ]

-- Reading the digits in front of `out` amounts to having read `n`.
digits_value-digits_fuel :
    (f n : ℕ) (out : Text) → n < f → digits_value 0 (digits_fuel f n out) ≡ digits_value n out
unfolding digits_fuel
digits_value-digits_fuel zero n out h = absurd (omega arith)
digits_value-digits_fuel (suc f) n out h =
    let last : n / 10 * 10 + (b'0' + n % 10 - b'0') ≡ n = omega arith in
    elim (Bool-cases (ltb n 10)) [
      | inl e ↦ rw e (ap (λ m. digits_value m out) (ground arith))
      | inr e ↦
          rw e (
            digits_value-digits_fuel f (n / 10) _ (ground arith)
            ∙ ap (λ m. digits_value m out) last)
    ]

digits_fuel-cons :
    (f n c : ℕ) (out : Text) → (d : ℕ) × (s : Text) × (digits_fuel f n (c ∷ out) ≡ d ∷ s)
unfolding digits_fuel
digits_fuel-cons zero n c out = (c, out, refl)
digits_fuel-cons (suc f) n c out = elim (Bool-cases (ltb n 10)) [
  | inl e ↦ rw e (_, _, refl)
  | inr e ↦ rw e (digits_fuel-cons f (n / 10) _ _)
]

digits_fuel-suc-cons :
    (f n : ℕ) (out : Text) → (d : ℕ) × (s : Text) × (digits_fuel (suc f) n out ≡ d ∷ s)
unfolding digits_fuel
digits_fuel-suc-cons f n out = elim (Bool-cases (ltb n 10)) [
  | inl e ↦ rw e (_, _, refl)
  | inr e ↦ rw e (digits_fuel-cons f (n / 10) _ _)
]

-- The print of a number is a digit and more digits, and spells that number.
pub digits_lem :
    (n : ℕ)
    → (d : ℕ) × (s : Text) × (digits n ≡ d ∷ s)
      × (is_digit d ≡ true)
      × AreDigits s
      × (digits_value 0 (d ∷ s) ≡ n)
unfolding digits
digits_lem n =
    let (d, s, e) = digits_fuel-suc-cons n n [] in
    let h : AreDigits (d ∷ s) = subst AreDigits e (digits_fuel-AreDigits (suc n) n [] tt) in
    let v : digits_value 0 (d ∷ s) ≡ n =
      ap (digits_value 0) (sym e) ∙ digits_value-digits_fuel (suc n) n [] (omega arith) in
    (d, s, e, h.0, h.1, v)

span_digits-append :
    (s r : Text) → AreDigits s → is_digit (peek r) ≡ false → span_digits (s ++ r) ≡ (s, r)
unfolding span_digits peek
span_digits-append [] [] h k = refl
span_digits-append [] (c ∷ r) h k = ground arith
span_digits-append (c ∷ s) r h k = rw (span_digits-append s r h.1 k, h.0)

frac_part-Stops : (r : Text) → Stops r → frac_part r ≡ ([], r)
unfolding frac_part peek
frac_part-Stops [] h = refl
frac_part-Stops (c ∷ r) h = ground arith

exp_part-Stops : (r : Text) → Stops r → exp_part r ≡ ([], r)
unfolding exp_part peek
exp_part-Stops [] h = refl
exp_part-Stops (c ∷ r) h = ground arith

is_digit-Stops : (r : Text) → Stops r → is_digit (peek r) ≡ false
is_digit-Stops r h = ground arith

-- A number in the range of `int64_t`.
abbrev pub IsInt64 : ℤ → Type 0
IsInt64 = InSigned int64_half

stoll-pos :
    (d : ℕ) (s : Text) (n : ℕ)
    → digits_value 0 (d ∷ s) ≡ n
    → n < int64_half
    → stoll false (d ∷ s) ≡ some (pos n)
unfolding stoll
stoll-pos d s n v h = rw (v, in_range) (ground arith)

stoll-negsuc :
    (d : ℕ) (s : Text) (n : ℕ)
    → digits_value 0 (d ∷ s) ≡ suc n
    → suc n ≤ int64_half
    → stoll true (d ∷ s) ≡ some (negsuc n)
unfolding stoll
stoll-negsuc d s n v h = rw (v, in_range) (ground arith)

-- A digit is neither a minus nor a space.
minus-digit : (d : ℕ) → is_digit d ≡ true → (d == b'-') ≡ false
unfolding is_digit
minus-digit d h = ground arith

-- The scanner reads a printed number off the front of any text that does not go on with it.
pub parse_number-to_string :
    (fl : Floats) (z : ℤ) (r : Text)
    → IsInt64 z
    → Stops r
    → parse_number fl (to_string z ++ r) ≡ ok (int z, r)
unfolding parse_number number_value to_string
parse_number-to_string fl (pos n) r h k =
    let (d, s, e, hd, hs, hv) = digits_lem n in
    rw (
      e,
      minus-digit d hd,
      span_digits-append (d ∷ s) r (hd, hs) (is_digit-Stops r k),
      frac_part-Stops r k,
      exp_part-Stops r k,
      stoll-pos d s n hv h.0,
      converted,
    )
parse_number-to_string fl (negsuc n) r h k =
    let (d, s, e, hd, hs, hv) = digits_lem (suc n) in
    rw (
      e,
      span_digits-append (d ∷ s) r (hd, hs) (is_digit-Stops r k),
      frac_part-Stops r k,
      exp_part-Stops r k,
      stoll-negsuc d s n hv h.1,
      converted,
    )
