-- ===== src/Json/Layout.antt =====
-- The line breaks, the spaces and the lengths of what `json::dump_pretty` prints, and how the parser
-- passes them, in src/shared/json.hpp.
use draind.Base.{
  ℕ, zero, suc, ◌+◌, ◌*◌, ◌<◌, ◌≡◌, refl, ap, sym, ◌∙◌, Bool, true, false, [], ◌∷◌, ◌++◌,
  append_assoc, append-nil, Text, length, length-append, ok, arith, ◌>>=◌, ◌==◌,
}
use draind.Json.Value.{
  Value, Items, Fields, Floats, null, bool, int, double, string, array, object, nil, cons, end,
  field,
}
use draind.Json.Number.{is_digit}
use draind.Json.Parser.{
  is_space, skip_ws, peek, parse_value, parse_object, parse_members, parse_elements,
}
use draind.Json.Printer.{
  escape, spaces, comma_items, comma_fields, pretty, pretty_items, pretty_fields,
}
use draind.Json.Digits.{Stops}
use draind.Json.Exact.{IsExact}
use draind.Json.Starts.{Opens, Opens-dump, skip_ws-peek, skip_ws-escape, length-append_text}

skip_ws-spaces : (n : ℕ) (t : Text) → skip_ws (spaces n ++ t) ≡ skip_ws t
unfolding skip_ws spaces is_space
skip_ws-spaces zero t = refl
skip_ws-spaces (suc n) t = skip_ws-spaces n t

-- A line break and the spaces behind it are skipped.
pub skip_ws-indented : (n : ℕ) (t : Text) → skip_ws (10 ∷ (spaces n ++ t)) ≡ skip_ws t
unfolding skip_ws is_space
skip_ws-indented n t = skip_ws-spaces n t

-- Behind the line break and the spaces stands what closes a list.
pub skip_ws-closing :
    (n c : ℕ) (t : Text) → is_space c ≡ false → skip_ws (10 ∷ (spaces n ++ c ∷ t)) ≡ c ∷ t
unfolding peek
skip_ws-closing n c t h = skip_ws-indented n (c ∷ t) ∙ skip_ws-peek (c ∷ t) h

module _ (fl : Floats) where
  -- The parser skips spaces first.
  parse_value-skip :
      (f : ℕ) (s t : Text) → skip_ws s ≡ skip_ws t → parse_value fl f s ≡ parse_value fl f t
  unfolding parse_value
  parse_value-skip zero s t e = refl
  parse_value-skip (suc f) s t e = rw e refl

  pub parse_elements-skip :
      (f : ℕ) (s t : Text) → skip_ws s ≡ skip_ws t → parse_elements fl f s ≡ parse_elements fl f t
  unfolding parse_value
  parse_elements-skip zero s t e = refl
  parse_elements-skip (suc f) s t e = rw (parse_value-skip f s t e) refl

  pub parse_members-skip :
      (f : ℕ) (obj : Fields) (s t : Text)
      → skip_ws s ≡ skip_ws t
      → parse_members fl f obj s ≡ parse_members fl f obj t
  unfolding parse_value
  parse_members-skip zero obj s t e = refl
  parse_members-skip (suc f) obj s t e = rw e refl

  pub parse_object-skip :
      (f : ℕ) (s t : Text) → skip_ws s ≡ skip_ws t → parse_object fl f s ≡ parse_object fl f t
  unfolding parse_value
  parse_object-skip zero s t e = refl
  parse_object-skip (suc f) s t e = rw e refl

  -- So is the space behind a colon.
  pub parse_value-space : (f : ℕ) (t : Text) → parse_value fl f (b' ' ∷ t) ≡ parse_value fl f t
  unfolding skip_ws is_space
  parse_value-space f t = parse_value-skip f (b' ' ∷ t) t refl

module _ (fl : Floats) (indent : ℕ) where
  -- What follows an element, and a member, up to the end of its list.
  abbrev pub rest_items : ℕ → Items → Text → Text
  rest_items depth xs r =
      comma_items xs
      ++ 10 ∷ (pretty_items fl indent depth xs ++ (spaces (depth * indent) ++ b']' ∷ r))

  abbrev pub rest_fields : ℕ → Fields → Text → Text
  rest_fields depth fs r =
      comma_fields fs
      ++ 10 ∷ (pretty_fields fl indent depth fs ++ (spaces (depth * indent) ++ b'}' ∷ r))

  pub items_assoc :
      (depth : ℕ) (x : Value) (xs : Items) (r : Text)
      → (pretty_items fl indent depth (cons x xs) ++ (spaces (depth * indent) ++ b']' ∷ [])) ++ r
        ≡ spaces ((depth + 1) * indent) ++ (pretty fl indent (depth + 1) x ++ rest_items depth xs r)
  unfolding pretty
  items_assoc depth x xs r = simp append_assoc

  -- The elements and the members that are left, up to the end of their list.
  pub more_items :
      (depth : ℕ) (x : Value) (xs : Items) (r : Text)
      → pretty_items fl indent depth (cons x xs) ++ (spaces (depth * indent) ++ b']' ∷ r)
        ≡ spaces ((depth + 1) * indent) ++ (pretty fl indent (depth + 1) x ++ rest_items depth xs r)
  unfolding pretty
  more_items depth x xs r = simp append_assoc

  -- A member from its key on.
  abbrev pub member : ℕ → Text → Value → Fields → Text → Text
  member depth k v fs r =
      escape k ++ b':' ∷ b' ' ∷ (pretty fl indent (depth + 1) v ++ rest_fields depth fs r)

  pub more_fields :
      (depth : ℕ) (k : Text) (v : Value) (fs : Fields) (r : Text)
      → pretty_fields fl indent depth (field k v fs) ++ (spaces (depth * indent) ++ b'}' ∷ r)
        ≡ spaces ((depth + 1) * indent) ++ member depth k v fs r
  unfolding pretty
  more_fields depth k v fs r = simp append_assoc

  pub fields_end :
      (depth : ℕ) (k : Text) (v : Value) (fs : Fields) (r : Text)
      → (pretty_fields fl indent depth (field k v fs) ++ (spaces (depth * indent) ++ b'}' ∷ []))
          ++ r
        ≡ spaces ((depth + 1) * indent) ++ member depth k v fs r
  unfolding pretty
  fields_end depth k v fs r = simp append_assoc

  pub Opens-pretty :
      (depth : ℕ) (v : Value) (r : Text) → IsExact v → Opens (pretty fl indent depth v ++ r)
  unfolding pretty is_space peek
  Opens-pretty depth null r h = Opens-dump fl null r h
  Opens-pretty depth (bool b) r h = Opens-dump fl (bool b) r h
  Opens-pretty depth (int n) r h = Opens-dump fl (int n) r h
  Opens-pretty depth (double x) r h = absurd h
  Opens-pretty depth (string s) r h = Opens-dump fl (string s) r h
  Opens-pretty depth (array nil) r h = (refl, refl)
  Opens-pretty depth (array (cons x xs)) r h = (refl, refl)
  Opens-pretty depth (object end) r h = (refl, refl)
  Opens-pretty depth (object (field k v fs)) r h = (refl, refl)

  pub Stops-rest_items : (depth : ℕ) (xs : Items) (r : Text) → Stops (rest_items depth xs r)
  unfolding peek is_digit comma_items
  Stops-rest_items depth nil r = refl
  Stops-rest_items depth (cons x xs) r = refl

  pub Stops-rest_fields : (depth : ℕ) (fs : Fields) (r : Text) → Stops (rest_fields depth fs r)
  unfolding peek is_digit comma_fields
  Stops-rest_fields depth end r = refl
  Stops-rest_fields depth (field k v fs) r = refl

  pub length-pretty_items :
      (depth : ℕ) (x : Value) (xs : Items)
      → length (pretty_items fl indent depth (cons x xs))
        ≡ length (spaces ((depth + 1) * indent))
          + (length (pretty fl indent (depth + 1) x)
              + (length (comma_items xs) + suc (length (pretty_items fl indent depth xs))))
  unfolding pretty
  length-pretty_items depth x xs = simp length-append

  pub length-pretty_fields :
      (depth : ℕ) (k : Text) (v : Value) (fs : Fields)
      → length (pretty_fields fl indent depth (field k v fs))
        ≡ length (spaces ((depth + 1) * indent))
          + (length (escape k)
              + suc (
                  suc (
                    length (pretty fl indent (depth + 1) v)
                    + (length (comma_fields fs)
                        + suc (length (pretty_fields fl indent depth fs))))))
  unfolding pretty
  length-pretty_fields depth k v fs = simp length-append

pub ruleset pretty_lengths = (arith, length-append_text, length-pretty_items, length-pretty_fields)
