-- ===== src/Json/Starts.antt =====
-- How printed values begin and end for the parser, and their lengths, in src/shared/json.hpp.
use draind.Base.{
  ℕ, zero, suc, ◌+◌, ◌*◌, ◌<◌, ◌≡◌, refl, ap, Bool, true, false, ◌&&◌, leb, [], ◌∷◌, ◌++◌,
  append_assoc, append-nil, Text, length, length-append, ℤ, pos, negsuc, ◌==◌, ok, arith, ◌>>=◌,
  ◌∙◌,
}
use draind.Json.Value.{
  Value, Items, Fields, Floats, null, bool, int, double, string, array, object, nil, cons, end,
  field,
}
use draind.Json.Number.{is_digit, to_string}
use draind.Json.Parser.{is_space, skip_ws, peek, parse_string, parse_number, parse_value}
use draind.Json.Printer.{escape, dump, dump_items, dump_fields, comma}
use draind.Json.Digits.{Stops, digits_lem}
use draind.Json.Exact.{IsExact}

pub skip_ws-peek : (t : Text) → is_space (peek t) ≡ false → skip_ws t ≡ t
unfolding skip_ws peek
skip_ws-peek [] h = refl
skip_ws-peek (c ∷ t) h = rw h

-- A printed value begins with a character that is no space and closes nothing.
abbrev pub Opens : Text → Type 0
Opens t = (is_space (peek t) ≡ false) × ((peek t == b']') ≡ false)

Opens-to_string : (z : ℤ) (r : Text) → Opens (to_string z ++ r)
unfolding to_string is_space peek
Opens-to_string (pos n) r =
    let (d, s, e, hd, hs, hv) = digits_lem n in rw e (unfold is_digit in ground arith)
Opens-to_string (negsuc n) r = (refl, refl)

pub Opens-dump : (fl : Floats) (v : Value) (r : Text) → IsExact v → Opens (dump fl v ++ r)
unfolding dump escape is_space peek
Opens-dump fl null r h = (refl, refl)
Opens-dump fl (bool true) r h = (refl, refl)
Opens-dump fl (bool false) r h = (refl, refl)
Opens-dump fl (int n) r h = Opens-to_string n r
Opens-dump fl (double x) r h = absurd h
Opens-dump fl (string s) r h = (refl, refl)
Opens-dump fl (array xs) r h = (refl, refl)
Opens-dump fl (object fs) r h = (refl, refl)

-- At a digit the parser hands over to `parse_number`.
parse_value-digit :
    (fl : Floats) (f d : ℕ) (t : Text)
    → is_digit d ≡ true
    → parse_value fl (suc f) (d ∷ t) ≡ parse_number fl (d ∷ t)
unfolding parse_value is_digit
parse_value-digit fl f d t h =
    let other : (c : ℕ) → (leb b'0' c && leb c b'9') ≡ false → (d == c) ≡ false =
      λ c k. ground (arith) in
    rw (
      other b' ' refl,
      other 9 refl,
      other 13 refl,
      other 10 refl,
      other b'"' refl,
      other b'{' refl,
      other b'[' refl,
      other b't' refl,
      other b'f' refl,
      other b'n' refl,
      other b'-' refl,
      h,
    )

-- At a printed integer the parser hands over to `parse_number`.
pub parse_value-to_string :
    (fl : Floats) (f : ℕ) (z : ℤ) (r : Text)
    → parse_value fl (suc f) (to_string z ++ r) ≡ parse_number fl (to_string z ++ r)
unfolding to_string
parse_value-to_string fl f (pos n) r =
    let (d, s, e, hd, hs, hv) = digits_lem n in rw e (parse_value-digit fl f d (s ++ r) hd)
parse_value-to_string fl f (negsuc n) r = unfold parse_value in refl

pub skip_ws-escape : (k r : Text) → skip_ws (escape k ++ r) ≡ escape k ++ r
unfolding skip_ws escape
skip_ws-escape k r = refl

-- At a printed string the parser hands over to `parse_string`.
pub parse_value-escape :
    (fl : Floats) (f : ℕ) (t r : Text)
    → parse_value fl (suc f) (escape t ++ r)
      ≡ (parse_string (escape t ++ r) >>= (λ (s, r'). ok (string s, r')))
unfolding parse_value escape
parse_value-escape fl f t r = refl

-- What follows an element or a member stops a number.
pub Stops-dump_items :
    (fl : Floats) (xs : Items) (r : Text) → Stops (dump_items fl false xs ++ b']' ∷ r)
unfolding dump peek is_digit
Stops-dump_items fl nil r = refl
Stops-dump_items fl (cons x xs) r = refl

pub Stops-dump_fields :
    (fl : Floats) (fs : Fields) (r : Text) → Stops (dump_fields fl false fs ++ b'}' ∷ r)
unfolding dump peek is_digit
Stops-dump_fields fl end r = refl
Stops-dump_fields fl (field k v fs) r = refl

pub length-append_text : (s t : Text) → length (s ++ t) ≡ length s + length t
length-append_text = length-append

pub length-dump_items :
    (fl : Floats) (first : Bool) (x : Value) (xs : Items)
    → length (dump_items fl first (cons x xs))
      ≡ length (comma first) + (length (dump fl x) + length (dump_items fl false xs))
unfolding dump
length-dump_items fl first x xs = omega (
  arith,
  length-append (comma first) (dump fl x ++ dump_items fl false xs),
  length-append (dump fl x) (dump_items fl false xs),
)

pub length-dump_fields :
    (fl : Floats) (first : Bool) (k : Text) (v : Value) (fs : Fields)
    → length (dump_fields fl first (field k v fs))
      ≡ length (comma first)
        + (length (escape k) + suc (length (dump fl v) + length (dump_fields fl false fs)))
unfolding dump
length-dump_fields fl first k v fs = omega (
  arith,
  length-append (comma first) (escape k ++ b':' ∷ (dump fl v ++ dump_fields fl false fs)),
  length-append (escape k) (b':' ∷ (dump fl v ++ dump_fields fl false fs)),
  length-append (dump fl v) (dump_fields fl false fs),
)

pub ruleset lengths = (arith, length-append_text, length-dump_items, length-dump_fields)
