-- ===== src/Json/Shrinks.antt =====
-- The lexical parts of the parser of src/shared/json.hpp leave less text than they were given.
use draind.Base.{
  ℕ, suc, ◌≤◌, ◌<◌, ◌≡◌, ◌≢◌, refl, Bool, true, false, ◌||◌, Option, none, some, [], ◌∷◌, Text,
  codes, length, is_empty, ◌&&◌, tail, drop, length-drop, ◌==◌, if◌then◌else◌, Result, ok, err,
  out_of_fuel, ◌>>=◌, arith,
}
use draind.Json.Value.{Value, Floats, int, double}
use draind.Json.Number.{is_digit, span_digits, stoll}
use draind.Json.Parser.{
  skip_ws, peek, put, string_chars, parse_string, frac_part, exp_sign, exp_part, converted,
  number_value, parse_number,
}

-- The call kept within its fuel, and if it returned, it left less than `n` characters.
pub data Shrinks {ℓ} {A : Type ℓ} (n : ℕ) : Result (A × Text) → Type ℓ where
  shrunk : {a : A} {r : Text} → length r < n → Shrinks n (ok (a, r))
  failed : {e : Text} → Shrinks n (err e)

module _ {ℓ} {A : Type ℓ} where
  -- What is made of the value alone has not run out of fuel either.
  pub Shrinks-ne-out_of_fuel {κ} :
      {B : Type κ} {n : ℕ} {r : Result (A × Text)} (f : A → B)
      → Shrinks n r
      → (r >>= (λ (a, s). ok (f a))) ≢ out_of_fuel
  Shrinks-ne-out_of_fuel f (shrunk h) = cc
  Shrinks-ne-out_of_fuel f failed = cc

  pub Shrinks-if :
      {n : ℕ} (b : Bool) {x y : Result (A × Text)}
      → (b ≡ true → Shrinks n x)
      → Shrinks n y
      → Shrinks n (if b then x else y)
  Shrinks-if true hx hy = hx refl
  Shrinks-if false hx hy = hy

  pub Shrinks-le : {n m : ℕ} {r : Result (A × Text)} → Shrinks n r → n ≤ m → Shrinks m r
  Shrinks-le (shrunk h) k = shrunk (omega arith)
  Shrinks-le failed k = failed

  pub Shrinks-bind {κ} :
      {B : Type κ} {n m : ℕ} {r : Result (A × Text)} (f : A × Text → Result (B × Text))
      → Shrinks n r
      → ((a : A) (s : Text) → length s < n → Shrinks m (f (a, s)))
      → Shrinks m (r >>= f)
  Shrinks-bind f (shrunk {a} {r} h) k = k a r h
  Shrinks-bind f failed k = failed

pub length-skip_ws : (s : Text) → length (skip_ws s) ≤ length s
unfolding skip_ws
length-skip_ws [] = omega arith
length-skip_ws (c ∷ s) = ground (arith, length-skip_ws s)

pub length-tail : (s : Text) → length (tail s) ≤ length s
length-tail [] = omega arith
length-tail (c ∷ s) = omega arith

put-Shrinks : {n : ℕ} (c : ℕ) {r : Result (Text × Text)} → Shrinks n r → Shrinks n (put c r)
unfolding put
put-Shrinks c (shrunk h) = shrunk h
put-Shrinks c failed = failed

string_chars-Shrinks : (s : Text) → Shrinks (length s) (string_chars s)
unfolding string_chars
string_chars-Shrinks [] = failed
string_chars-Shrinks (c ∷ []) = Shrinks-if (c == b'"') (λ h. shrunk (omega arith)) failed
string_chars-Shrinks (c ∷ d ∷ s) =
    Shrinks-if (c == b'"') (λ h. shrunk (omega arith))
      (Shrinks-if (c == 92) (λ h. Shrinks-le (put-Shrinks _ (string_chars-Shrinks s)) (omega arith))
        (Shrinks-le (put-Shrinks c (string_chars-Shrinks (d ∷ s))) (omega arith)))

pub parse_string-Shrinks : (s : Text) → Shrinks (length s) (parse_string s)
unfolding parse_string
parse_string-Shrinks s =
    Shrinks-if (peek s == b'"') (λ h. Shrinks-le (string_chars-Shrinks (tail s)) (length-tail s))
      failed

length-span_digits : (s : Text) → length (span_digits s).1 ≤ length s
unfolding span_digits
length-span_digits [] = omega arith
length-span_digits (c ∷ s) = ground (arith, length-span_digits s)

length-frac_part : (s : Text) → length (frac_part s).1 ≤ length s
unfolding frac_part
length-frac_part [] = omega arith
length-frac_part (c ∷ s) = ground (arith, length-span_digits s)

length-exp_sign : (s : Text) → length (exp_sign s).1 ≤ length s
unfolding exp_sign
length-exp_sign [] = omega arith
length-exp_sign (c ∷ s) = ground arith

length-exp_part : (s : Text) → length (exp_part s).1 ≤ length s
unfolding exp_part
length-exp_part [] = omega arith
length-exp_part (c ∷ s) = ground (arith, length-exp_sign s, length-span_digits (exp_sign s).1)

converted-Shrinks {ℓ} :
    {A : Type ℓ} {n : ℕ} (name : Text) (f : A → Value) (o : Option A) (r : Text)
    → length r < n
    → Shrinks n (converted name f o r)
unfolding converted
converted-Shrinks name f none r h = failed
converted-Shrinks name f (some a) r h = shrunk h

number_value-Shrinks :
    (fl : Floats) (minus : Bool) (ds frac ex : Text) {n : ℕ} (r : Text)
    → length r < n
    → Shrinks n (number_value fl minus ds frac ex r)
unfolding number_value
number_value-Shrinks fl minus ds frac ex r h =
    Shrinks-if (is_empty frac && is_empty ex)
      (λ e. converted-Shrinks (codes "stoll") int (stoll minus ds) r h)
      (converted-Shrinks (codes "stod") double (fl.stod _) r h)

-- What is left when the digits behind the sign are passed.
behind_digits :
    (c : ℕ) (s : Text)
    → (c == b'-' || is_digit c) ≡ true
    → length (span_digits (if c == b'-' then s else c ∷ s)).1 ≤ length s
unfolding span_digits
behind_digits c s h = ground (arith, length-span_digits s)

pub parse_number-Shrinks :
    (fl : Floats) (t : Text)
    → (peek t == b'-' || is_digit (peek t)) ≡ true
    → Shrinks (length t) (parse_number fl t)
unfolding parse_number is_digit
parse_number-Shrinks fl [] h = cc
parse_number-Shrinks fl (c ∷ s) h =
    let s₂ = (span_digits (if c == b'-' then s else c ∷ s)).1 in
    let s₃ = (frac_part s₂).1 in
    number_value-Shrinks fl _ _ _ _ (exp_part s₃).1
      (omega (arith, behind_digits c s h, length-frac_part s₂, length-exp_part s₃))

pub drop-Shrinks :
    (k : ℕ) (c : ℕ) (t : Text) (v : Value)
    → (peek t == suc c) ≡ true
    → Shrinks (length t) (ok (v, drop (suc k) t))
unfolding peek
drop-Shrinks k c [] v h = absurd (ground arith)
drop-Shrinks k c (d ∷ t) v h = shrunk (omega (arith, length-drop k t))

-- What stands behind a character.
length-tail-lt : (t : Text) → is_empty t ≡ false → length (tail t) < length t
length-tail-lt [] h = cc
length-tail-lt (c ∷ t) h = omega arith

pub length-peek : (t : Text) (c : ℕ) → (peek t == suc c) ≡ true → length (tail t) < length t
unfolding peek
length-peek [] c h = absurd (ground arith)
length-peek (d ∷ t) c h = omega arith
