-- ===== src/Json/OneLine.antt =====
-- `json::dump` of src/shared/json.hpp prints no line break, so a printed value fits on one line.
use draind.Base.{
  ℕ, zero, suc, ◌+◌, ◌%◌, ◌/◌, ◌≢◌, Bool, true, false, Bool-cases, inl, inr, [], ◌∷◌, ◌++◌, Text,
  All, All-append, ltb, arith, pos, negsuc, ℤ,
}
use draind.Json.Value.{
  Value, Items, Fields, Floats, null, bool, int, double, string, array, object, nil, cons, end,
  field,
}
use draind.Json.Number.{to_string, digits_fuel, digits}
use draind.Json.Printer.{escape_char, escape_chars, escape, dump, dump_items, dump_fields, comma}

abbrev pub IsLine : Text → Type 0
IsLine = All (λ c. c ≢ 10)

IsLine-append : (s t : Text) → IsLine s → IsLine t → IsLine (s ++ t)
IsLine-append = All-append (λ c. c ≢ 10)

digits_fuel-IsLine : (f n : ℕ) (out : Text) → IsLine out → IsLine (digits_fuel f n out)
unfolding digits_fuel
digits_fuel-IsLine zero n out h = h
digits_fuel-IsLine (suc f) n out h =
    let last : b'0' + n % 10 ≢ 10 = omega arith in
    elim (Bool-cases (ltb n 10)) [
      | inl e ↦ rw e (last, h)
      | inr e ↦ rw e (digits_fuel-IsLine f (n / 10) _ (last, h))
    ]

to_string-IsLine : (z : ℤ) → IsLine (to_string z)
unfolding to_string digits
to_string-IsLine (pos n) = digits_fuel-IsLine (suc n) n [] tt
to_string-IsLine (negsuc n) = (omega arith, digits_fuel-IsLine (suc (suc n)) (suc n) [] tt)

escape_char-IsLine : (c : ℕ) → IsLine (escape_char c)
unfolding escape_char
escape_char-IsLine c = ground arith

escape_chars-IsLine : (s : Text) → IsLine (escape_chars s)
unfolding escape_chars
escape_chars-IsLine [] = tt
escape_chars-IsLine (c ∷ s) =
    IsLine-append (escape_char c) _ (escape_char-IsLine c) (escape_chars-IsLine s)

-- Whatever a text holds, its escaped print is one line.
pub escape-IsLine : (s : Text) → IsLine (escape s)
unfolding escape
escape-IsLine s =
    (omega arith, IsLine-append (escape_chars s) _ (escape_chars-IsLine s) (omega arith))

comma-IsLine : (first : Bool) → IsLine (comma first)
comma-IsLine true = tt
comma-IsLine false = omega arith

module _ (fl : Floats) (float_line : (x : ℕ) → IsLine (fl.print_g x)) where
  mutual
    unfolding dump

    value-IsLine : (v : Value) → IsLine (dump fl v)
    value-IsLine null = omega arith
    value-IsLine (bool true) = omega arith
    value-IsLine (bool false) = omega arith
    value-IsLine (int n) = to_string-IsLine n
    value-IsLine (double x) = float_line x
    value-IsLine (string s) = escape-IsLine s
    value-IsLine (array xs) =
        (omega arith, IsLine-append (dump_items fl true xs) _ (items-IsLine true xs) (omega arith))
    value-IsLine (object fs) = (
      omega arith,
      IsLine-append (dump_fields fl true fs) _ (fields-IsLine true fs) (omega arith),
    )

    items-IsLine : (first : Bool) (xs : Items) → IsLine (dump_items fl first xs)
    items-IsLine first nil = tt
    items-IsLine first (cons x xs) =
        IsLine-append (comma first) _ (comma-IsLine first)
          (IsLine-append (dump fl x) _ (value-IsLine x) (items-IsLine false xs))

    fields-IsLine : (first : Bool) (fs : Fields) → IsLine (dump_fields fl first fs)
    fields-IsLine first end = tt
    fields-IsLine first (field k v fs) = IsLine-append (comma first) _ (comma-IsLine first) (
        IsLine-append (escape k) _ (escape-IsLine k)
          (omega arith, IsLine-append (dump fl v) _ (value-IsLine v) (fields-IsLine false fs)))

  -- Where `%g` prints no line break, a printed value holds none.
  pub dump-IsLine : (v : Value) → IsLine (dump fl v)
  dump-IsLine v = value-IsLine v
