-- ===== src/Json/Pretty.antt =====
-- `json::parse` reads back what `json::dump_pretty` printed, in src/shared/json.hpp.
use draind.Base.{
  ℕ, zero, suc, ◌+◌, ◌*◌, ◌<◌, ◌≡◌, refl, ap, ◌∙◌, false, [], ◌∷◌, ◌++◌, Text, length,
  length-append, ok, arith,
}
use draind.Json.Value.{
  Value, Items, Fields, Floats, null, bool, int, double, string, array, object, nil, cons, end,
  field,
}
use draind.Json.Number.{is_digit}
use draind.Json.Parser.{
  is_space, peek, parse_value, parse_object, parse_members, parse_array, parse_elements, parse,
}
use draind.Json.Printer.{dump, spaces, pretty, pretty_items, pretty_fields, dump_pretty}
use draind.Json.Digits.{Stops}
use draind.Json.Exact.{IsExact, AreExact, FieldsExact}
use draind.Json.Escapes.{parse_string-escape}
use draind.Json.Entries.{
  append, fields_assoc, insert-append, AllBelow, AllBelow-append, AllBelow-end,
}
use draind.Json.Starts.{Opens, skip_ws-peek, skip_ws-escape}
use draind.Json.RoundTrip.{parse_object-escape, parse_value-dump_append}
use draind.Json.Layout.{
  Opens-pretty, Stops-rest_fields, Stops-rest_items, fields_end, items_assoc, member, more_fields,
  more_items, parse_elements-skip, parse_members-skip, parse_object-skip, parse_value-space,
  pretty_lengths, rest_fields, rest_items, skip_ws-closing, skip_ws-indented,
}

no_space_bracket : is_space b']' ≡ false
unfolding is_space
no_space_bracket = refl

no_space_brace : is_space b'}' ≡ false
unfolding is_space
no_space_brace = refl

Stops-break : Stops (10 ∷ [])
unfolding peek is_digit
Stops-break = refl

module _ (fl : Floats) (indent : ℕ) where
  parse_value-nil :
      (f : ℕ) (r : Text) → Stops r → 6 < f → parse_value fl f (b'[' ∷ b']' ∷ r) ≡ ok (array nil, r)
  unfolding dump
  parse_value-nil f r s n = parse_value-dump_append fl (array nil) r f tt s n

  parse_value-end :
      (f : ℕ) (r : Text) → Stops r → 6 < f → parse_value fl f (b'{' ∷ b'}' ∷ r) ≡ ok (object end, r)
  unfolding dump
  parse_value-end f r s n = parse_value-dump_append fl (object end) r f tt s n

  mutual
    unfolding pretty parse_value

    parse_value-pretty :
        (f depth : ℕ) (v : Value) (r : Text)
        → IsExact v
        → Stops r
        → 3 * length (pretty fl indent depth v) < f
        → parse_value fl f (pretty fl indent depth v ++ r) ≡ ok (v, r)
    parse_value-pretty f depth null r h s n = parse_value-dump_append fl null r f h s n
    parse_value-pretty f depth (bool b) r h s n = parse_value-dump_append fl (bool b) r f h s n
    parse_value-pretty f depth (int z) r h s n = parse_value-dump_append fl (int z) r f h s n
    parse_value-pretty f depth (double x) r h s n = absurd h
    parse_value-pretty f depth (string t) r h s n = parse_value-dump_append fl (string t) r f h s n
    parse_value-pretty f depth (array nil) r h s n = parse_value-nil f r s n
    parse_value-pretty f depth (object end) r h s n = parse_value-end f r s n
    parse_value-pretty zero depth (array (cons x xs)) r h s n = absurd (omega arith)
    parse_value-pretty zero depth (object (field k v fs)) r h s n = absurd (omega arith)
    parse_value-pretty (suc f) depth (array (cons x xs)) r h s n =
        ap (λ t. parse_array fl f (10 ∷ t)) (items_assoc fl indent depth x xs r)
        ∙ parse_array-pretty f depth x xs r h (omega pretty_lengths)
    parse_value-pretty (suc f) depth (object (field k v fs)) r h s n =
        ap (λ t. parse_object fl f (10 ∷ t)) (fields_end fl indent depth k v fs r)
        ∙ parse_object-pretty f depth k v fs r h (omega pretty_lengths)

    parse_array-pretty :
        (f depth : ℕ) (x : Value) (xs : Items) (r : Text)
        → AreExact (cons x xs)
        → 3 * length (pretty_items fl indent depth (cons x xs)) + 2 < f
        → parse_array fl f (
            10
            ∷ (spaces ((depth + 1) * indent)
                ++ (pretty fl indent (depth + 1) x ++ rest_items fl indent depth xs r)))
          ≡ ok (array (cons x xs), r)
    parse_array-pretty zero depth x xs r h n = absurd (omega arith)
    parse_array-pretty (suc f) depth x xs r h n =
        let t = pretty fl indent (depth + 1) x ++ rest_items fl indent depth xs r in
        let o : Opens t =
          Opens-pretty fl indent (depth + 1) x (rest_items fl indent depth xs r) h.0 in
        let skipped = skip_ws-indented ((depth + 1) * indent) t ∙ skip_ws-peek t o.0 in
        rw (skipped, o.1, parse_elements-pretty f depth x xs r h (omega pretty_lengths)) refl

    parse_elements-pretty :
        (f depth : ℕ) (x : Value) (xs : Items) (r : Text)
        → AreExact (cons x xs)
        → 3 * length (pretty_items fl indent depth (cons x xs)) + 1 < f
        → parse_elements fl f (pretty fl indent (depth + 1) x ++ rest_items fl indent depth xs r)
          ≡ ok (cons x xs, r)
    parse_elements-pretty zero depth x xs r h n = absurd (omega arith)
    parse_elements-pretty (suc f) depth x nil r h n =
        rw
          (
            parse_value-pretty f (depth + 1) x (rest_items fl indent depth nil r) h.0
                (Stops-rest_items fl indent depth nil r) (omega pretty_lengths),
            skip_ws-closing (depth * indent) b']' r no_space_bracket,
          )
          refl
    parse_elements-pretty (suc f) depth x (cons y ys) r h n =
        rw
          (
            parse_value-pretty f (depth + 1) x (rest_items fl indent depth (cons y ys) r) h.0
                (Stops-rest_items fl indent depth (cons y ys) r) (omega pretty_lengths),
            more_items fl indent depth y ys r,
            parse_elements-skip fl f
                (10
                  ∷ (spaces ((depth + 1) * indent)
                      ++ (pretty fl indent (depth + 1) y ++ rest_items fl indent depth ys r)))
                (pretty fl indent (depth + 1) y ++ rest_items fl indent depth ys r)
                (skip_ws-indented ((depth + 1) * indent)
                  (pretty fl indent (depth + 1) y ++ rest_items fl indent depth ys r)),
            parse_elements-pretty f depth y ys r h.1 (omega pretty_lengths),
          )
          refl

    parse_object-pretty :
        (f depth : ℕ) (k : Text) (v : Value) (fs : Fields) (r : Text)
        → FieldsExact (field k v fs)
        → 3 * length (pretty_fields fl indent depth (field k v fs)) + 2 < f
        → parse_object fl f
            (10 ∷ (spaces ((depth + 1) * indent) ++ member fl indent depth k v fs r))
          ≡ ok (object (field k v fs), r)
    parse_object-pretty zero depth k v fs r h n = absurd (omega arith)
    parse_object-pretty (suc f) depth k v fs r h n =
        let t = member fl indent depth k v fs r in
        parse_object-skip fl (suc f) (10 ∷ (spaces ((depth + 1) * indent) ++ t)) t
          (skip_ws-indented ((depth + 1) * indent) t)
        ∙ parse_object-escape fl f k _
        ∙ parse_members-pretty f end depth k v fs r (tt, AllBelow-end fs) h (omega pretty_lengths)

    parse_members-pretty :
        (f : ℕ) (acc : Fields) (depth : ℕ) (k : Text) (v : Value) (fs : Fields) (r : Text)
        → AllBelow acc (field k v fs)
        → FieldsExact (field k v fs)
        → 3 * length (pretty_fields fl indent depth (field k v fs)) + 1 < f
        → parse_members fl f acc (member fl indent depth k v fs r)
          ≡ ok (object (append acc (field k v fs)), r)
    parse_members-pretty zero acc depth k v fs r b h n = absurd (omega arith)
    parse_members-pretty (suc f) acc depth k v end r b h n =
        rw
          (
            skip_ws-escape,
            parse_string-escape,
            parse_value-space,
            parse_value-pretty f (depth + 1) v (rest_fields fl indent depth end r) h.1
                (Stops-rest_fields fl indent depth end r) (omega pretty_lengths),
            skip_ws-closing (depth * indent) b'}' r no_space_brace,
            insert-append k v acc b.0,
          )
          refl
    parse_members-pretty (suc f) acc depth k v (field j w fs) r b h n =
        rw
          (
            skip_ws-escape,
            parse_string-escape,
            parse_value-space,
            parse_value-pretty f (depth + 1) v (rest_fields fl indent depth (field j w fs) r) h.1
                (Stops-rest_fields fl indent depth (field j w fs) r) (omega pretty_lengths),
            insert-append k v acc b.0,
            more_fields fl indent depth j w fs r,
            parse_members-skip fl f (append acc (field k v end))
                (10 ∷ (spaces ((depth + 1) * indent) ++ member fl indent depth j w fs r))
                (member fl indent depth j w fs r)
                (skip_ws-indented ((depth + 1) * indent) (member fl indent depth j w fs r)),
            parse_members-pretty f (append acc (field k v end)) depth j w fs r
                (AllBelow-append acc k v (field j w fs) b.1 h.0) h.2 (omega pretty_lengths),
            fields_assoc acc k v (field j w fs),
          )
          refl

  -- Parsing what the pretty printer makes of a value gives the value, with any indentation, if its
  -- integers are in the range of `int64_t`, the keys of its objects are in the order of the map and
  -- it holds no float.
  pub parse-dump_pretty : (v : Value) → IsExact v → parse fl (dump_pretty fl indent v) ≡ ok v
  unfolding parse dump_pretty
  parse-dump_pretty v h =
      let fuel : 3 * length (pretty fl indent 0 v)
          < 3 * length (pretty fl indent 0 v ++ 10 ∷ []) + 1 =
        omega (arith, length-append (pretty fl indent 0 v) (10 ∷ [])) in
      rw (parse_value-pretty _ 0 v (10 ∷ []) h Stops-break fuel) refl
