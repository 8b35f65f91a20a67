-- ===== src/Json/Escapes.antt =====
-- A string that `escape` of src/shared/json.hpp has printed is read back by `parse_string`.
use draind.Base.{ℕ, ◌≡◌, refl, false, [], ◌∷◌, ◌++◌, append_assoc, Text, ◌==◌, ok, arith}
use draind.Json.Parser.{unescape, put, string_chars, parse_string}
use draind.Json.Printer.{escape_char, escape_chars, escape}

pub string_chars-plain :
    (c : ℕ) (t : Text)
    → (c == b'"') ≡ false
    → (c == 92) ≡ false
    → string_chars (c ∷ t) ≡ put c (string_chars t)
unfolding string_chars
string_chars-plain c [] h k = rw h
string_chars-plain c (d ∷ t) h k = rw (h, k)

pub string_chars-escaped :
    (d : ℕ) (t : Text) → string_chars (92 ∷ d ∷ t) ≡ put (unescape d) (string_chars t)
unfolding string_chars
string_chars-escaped d t = refl

-- A character that `escape` wrote is read back.
pub string_chars-escape_char :
    (c : ℕ) (t : Text) → string_chars (escape_char c ++ t) ≡ put c (string_chars t)
unfolding escape_char unescape
string_chars-escape_char c t = ground (
  arith,
  string_chars-escaped b'"' t,
  string_chars-escaped 92 t,
  string_chars-escaped b'n' t,
  string_chars-escaped b'r' t,
  string_chars-escaped b't' t,
  string_chars-plain c t,
)

pub string_chars-escape_chars : (s r : Text) → string_chars (escape_chars s ++ b'"' ∷ r) ≡ ok (s, r)
unfolding escape_chars put
string_chars-escape_chars [] [] = unfold string_chars in refl
string_chars-escape_chars [] (c ∷ r) = unfold string_chars in refl
string_chars-escape_chars (c ∷ s) r =
    rw (append_assoc, string_chars-escape_char, string_chars-escape_chars s r, put)

pub parse_string-escape : (s r : Text) → parse_string (escape s ++ r) ≡ ok (s, r)
unfolding parse_string escape
parse_string-escape s r = rw (append_assoc, string_chars-escape_chars)
