-- ===== src/Json/Printer.antt =====
-- `json::detail::escape`, `json::dump` and `json::dump_pretty` of src/shared/json.hpp.
use draind.Base.{
  ℕ, zero, suc, ◌+◌, ◌*◌, Bool, true, false, [], ◌∷◌, ◌++◌, Text, codes, ◌==◌, if◌then◌else◌,
}
use draind.Json.Value.{
  Value, Items, Fields, Floats, null, bool, int, double, string, array, object, nil, cons, end,
  field,
}
use draind.Json.Number.{to_string}

-- What `escape` appends for a character.
unfoldable pub escape_char : ℕ → Text
escape_char c =
    if c == b'"'
    then 92 ∷ b'"' ∷ []
    else if c == 92
    then 92 ∷ 92 ∷ []
    else if c == 10
    then 92 ∷ b'n' ∷ []
    else if c == 13
    then 92 ∷ b'r' ∷ []
    else if c == 9
    then 92 ∷ b't' ∷ []
    else c ∷ []

unfoldable pub escape_chars : Text → Text
unfolding escape_char
escape_chars [] = []
escape_chars (c ∷ s) = escape_char c ++ escape_chars s

unfoldable pub escape : Text → Text
unfolding escape_chars
escape s = b'"' ∷ (escape_chars s ++ b'"' ∷ [])

-- The comma in front of every entry but the first.
abbrev pub comma : Bool → Text
comma true = []
comma false = b',' ∷ []

module _ (fl : Floats) where
  unfoldable mutual
    pub dump : Value → Text
    dump null = codes "null"
    dump (bool true) = codes "true"
    dump (bool false) = codes "false"
    dump (int n) = to_string n
    dump (double x) = fl.print_g x
    dump (string s) = escape s
    dump (array xs) = b'[' ∷ (dump_items true xs ++ b']' ∷ [])
    dump (object fs) = b'{' ∷ (dump_fields true fs ++ b'}' ∷ [])

    pub dump_items : Bool → Items → Text
    dump_items first nil = []
    dump_items first (cons x xs) = comma first ++ (dump x ++ dump_items false xs)

    pub dump_fields : Bool → Fields → Text
    dump_fields first end = []
    dump_fields first (field k v fs) =
        comma first ++ (escape k ++ b':' ∷ (dump v ++ dump_fields false fs))

-- `std::string(n, ' ')`.
unfoldable pub spaces : ℕ → Text
spaces zero = []
spaces (suc n) = b' ' ∷ spaces n

-- The comma behind every entry but the last.
unfoldable pub comma_items : Items → Text
comma_items nil = []
comma_items (cons x xs) = b',' ∷ []

unfoldable pub comma_fields : Fields → Text
comma_fields end = []
comma_fields (field k v fs) = b',' ∷ []

module _ (fl : Floats) (indent : ℕ) where
  unfoldable mutual
    unfolding dump spaces comma_items comma_fields

    pub pretty : ℕ → Value → Text
    pretty depth (array nil) = codes "[]"
    pretty depth (array (cons x xs)) =
        b'[' ∷ 10 ∷ (pretty_items depth (cons x xs) ++ (spaces (depth * indent) ++ b']' ∷ []))
    pretty depth (object end) = codes "{}"
    pretty depth (object (field k v fs)) =
        b'{' ∷ 10 ∷ (pretty_fields depth (field k v fs) ++ (spaces (depth * indent) ++ b'}' ∷ []))
    pretty depth null = dump fl null
    pretty depth (bool b) = dump fl (bool b)
    pretty depth (int n) = dump fl (int n)
    pretty depth (double x) = dump fl (double x)
    pretty depth (string s) = dump fl (string s)

    pub pretty_items : ℕ → Items → Text
    pretty_items depth nil = []
    pretty_items depth (cons x xs) =
        spaces ((depth + 1) * indent)
        ++ (pretty (depth + 1) x ++ (comma_items xs ++ 10 ∷ pretty_items depth xs))

    pub pretty_fields : ℕ → Fields → Text
    pretty_fields depth end = []
    pretty_fields depth (field k v fs) =
        spaces ((depth + 1) * indent)
        ++ (escape k
            ++ b':'
              ∷ b' '
              ∷ (pretty (depth + 1) v ++ (comma_fields fs ++ 10 ∷ pretty_fields depth fs)))

  unfoldable pub dump_pretty : Value → Text
  unfolding pretty
  dump_pretty v = pretty 0 v ++ 10 ∷ []
