-- ===== src/Json/RoundTrip.antt =====
-- `json::parse` reads back what `json::dump` printed, in src/shared/json.hpp.
use draind.Base.{
  ℕ, zero, suc, ◌+◌, ◌*◌, ◌<◌, ◌≡◌, refl, ap, true, false, [], ◌∷◌, ◌++◌, append_assoc, append-nil,
  Text, length, ok, arith, ◌>>=◌, ◌∙◌,
}
use draind.Json.Value.{
  Value, Items, Fields, Floats, null, bool, int, double, string, array, object, nil, cons, end,
  field,
}
use draind.Json.Number.{is_digit}
use draind.Json.Parser.{
  peek, parse_value, parse_object, parse_members, parse_array, parse_elements, parse,
}
use draind.Json.Printer.{escape, dump, dump_items, dump_fields}
use draind.Json.Digits.{Stops, parse_number-to_string}
use draind.Json.Exact.{IsExact, AreExact, FieldsExact}
use draind.Json.Escapes.{parse_string-escape}
use draind.Json.Entries.{
  append, fields_assoc, insert-append, AllBelow, AllBelow-append, AllBelow-end,
}
use draind.Json.Starts.{
  Opens, Opens-dump, Stops-dump_fields, Stops-dump_items, lengths, parse_value-escape,
  parse_value-to_string, skip_ws-escape, skip_ws-peek,
}

module _ (fl : Floats) where
  members_assoc :
      (k : Text) (v : Value) (fs : Fields) (r : Text)
      → (escape k ++ b':' ∷ (dump fl v ++ dump_fields fl false fs)) ++ b'}' ∷ r
        ≡ escape k ++ b':' ∷ (dump fl v ++ (dump_fields fl false fs ++ b'}' ∷ r))
  members_assoc k v fs r = simp append_assoc

  -- In front of an element the loop of the array begins.
  pub parse_array-Opens :
      (f : ℕ) (t : Text)
      → Opens t
      → parse_array fl (suc f) t ≡ (parse_elements fl f t >>= (λ (xs, r). ok (array xs, r)))
  unfolding parse_value
  parse_array-Opens f t o = rw (skip_ws-peek t o.0, o.1)

  -- In front of a key the loop of the object begins.
  pub parse_object-escape :
      (f : ℕ) (k r : Text)
      → parse_object fl (suc f) (escape k ++ r) ≡ parse_members fl f end (escape k ++ r)
  unfolding parse_value escape
  parse_object-escape f k r = refl

  mutual
    unfolding dump parse_value

    parse_value-dump :
        (f : ℕ) (v : Value) (r : Text)
        → IsExact v
        → Stops r
        → 3 * length (dump fl v) < f
        → parse_value fl f (dump fl v ++ r) ≡ ok (v, r)
    parse_value-dump zero v r h s n = absurd (omega arith)
    parse_value-dump (suc f) null r h s n = refl
    parse_value-dump (suc f) (bool true) r h s n = refl
    parse_value-dump (suc f) (bool false) r h s n = refl
    parse_value-dump (suc f) (int z) r h s n =
        parse_value-to_string fl f z r ∙ parse_number-to_string fl z r h s
    parse_value-dump (suc f) (double x) r h s n = absurd h
    parse_value-dump (suc f) (string t) r h s n =
        parse_value-escape fl f t r ∙ rw (parse_string-escape t r)
    parse_value-dump (suc f) (array xs) r h s n =
        rw append_assoc (parse_array-dump f xs r h (omega lengths))
    parse_value-dump (suc f) (object fs) r h s n =
        rw append_assoc (parse_object-dump f fs r h (omega lengths))

    parse_array-dump :
        (f : ℕ) (xs : Items) (r : Text)
        → AreExact xs
        → 3 * length (dump_items fl true xs) + 2 < f
        → parse_array fl f (dump_items fl true xs ++ b']' ∷ r) ≡ ok (array xs, r)
    parse_array-dump zero xs r h n = absurd (omega arith)
    parse_array-dump (suc f) nil r h n = refl
    parse_array-dump (suc f) (cons x xs) r h n =
        let o : Opens (dump fl x ++ (dump_items fl false xs ++ b']' ∷ r)) = Opens-dump fl x _ h.0 in
        ap (parse_array fl (suc f)) (append_assoc (dump fl x) (dump_items fl false xs) (b']' ∷ r))
        ∙ parse_array-Opens f (dump fl x ++ (dump_items fl false xs ++ b']' ∷ r)) o
        ∙ rw (parse_elements-dump f x xs r h (omega lengths))

    parse_elements-dump :
        (f : ℕ) (x : Value) (xs : Items) (r : Text)
        → AreExact (cons x xs)
        → 3 * length (dump_items fl true (cons x xs)) + 1 < f
        → parse_elements fl f (dump fl x ++ (dump_items fl false xs ++ b']' ∷ r))
          ≡ ok (cons x xs, r)
    parse_elements-dump zero x xs r h n = absurd (omega arith)
    parse_elements-dump (suc f) x nil r h n =
        rw (parse_value-dump f x (b']' ∷ r) h.0 (Stops-dump_items fl nil r) (omega lengths))
    parse_elements-dump (suc f) x (cons y ys) r h n =
        rw (parse_value-dump f x _ h.0 (Stops-dump_items fl (cons y ys) r) (omega lengths))
          (rw append_assoc (rw (parse_elements-dump f y ys r h.1 (omega lengths))))

    parse_object-dump :
        (f : ℕ) (fs : Fields) (r : Text)
        → FieldsExact fs
        → 3 * length (dump_fields fl true fs) + 2 < f
        → parse_object fl f (dump_fields fl true fs ++ b'}' ∷ r) ≡ ok (object fs, r)
    parse_object-dump zero fs r h n = absurd (omega arith)
    parse_object-dump (suc f) end r h n = refl
    parse_object-dump (suc f) (field k v fs) r h n =
        ap (parse_object fl (suc f)) (members_assoc k v fs r)
        ∙ parse_object-escape f k _
        ∙ parse_members-dump f end k v fs r (tt, AllBelow-end fs) h (omega lengths)

    parse_members-dump :
        (f : ℕ) (acc : Fields) (k : Text) (v : Value) (fs : Fields) (r : Text)
        → AllBelow acc (field k v fs)
        → FieldsExact (field k v fs)
        → 3 * length (dump_fields fl true (field k v fs)) + 1 < f
        → parse_members fl f acc
            (escape k ++ b':' ∷ (dump fl v ++ (dump_fields fl false fs ++ b'}' ∷ r)))
          ≡ ok (object (append acc (field k v fs)), r)
    parse_members-dump zero acc k v fs r b h n = absurd (omega arith)
    parse_members-dump (suc f) acc k v end r b h n = rw (
      skip_ws-escape,
      parse_string-escape,
      parse_value-dump f v (b'}' ∷ r) h.1 (Stops-dump_fields fl end r) (omega lengths),
      insert-append k v acc b.0,
    )
    parse_members-dump (suc f) acc k v (field j w fs) r b h n =
        rw
          (
            skip_ws-escape,
            parse_string-escape,
            parse_value-dump f v _ h.1 (Stops-dump_fields fl (field j w fs) r) (omega lengths),
            insert-append k v acc b.0,
          )
          (rw (
            members_assoc j w fs r,
            parse_members-dump f (append acc (field k v end)) j w fs r
                (AllBelow-append acc k v (field j w fs) b.1 h.0) h.2 (omega lengths),
            fields_assoc acc k v (field j w fs),
          ))

  -- A printed value whose integers are in the range of `int64_t`, whose keys are in the order of
  -- the map and which holds no float is read back in front of any text that does not go on with a
  -- number, with fuel of more than three times its length, and the parser leaves exactly that
  -- text.
  pub parse_value-dump_append :
      (v : Value) (r : Text) (f : ℕ)
      → IsExact v
      → Stops r
      → 3 * length (dump fl v) < f
      → parse_value fl f (dump fl v ++ r) ≡ ok (v, r)
  parse_value-dump_append v r f h s n = parse_value-dump f v r h s n

  -- Parsing a printed value gives the value, if its integers are in the range of `int64_t`, the keys
  -- of its objects are in the order of the map and it holds no float.
  pub parse-dump : (v : Value) → IsExact v → parse fl (dump fl v) ≡ ok v
  unfolding parse
  parse-dump v h =
      let whole : parse_value fl (3 * length (dump fl v) + 1) (dump fl v ++ []) ≡ ok (v, []) =
        parse_value-dump _ v [] h (unfold peek is_digit in refl) (omega arith) in
      rw (rw append-nil at whole)
