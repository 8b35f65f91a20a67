-- ===== src/Json/Fuel.antt =====
-- The parser of src/shared/json.hpp always ends: each call leaves less text than it was given.
use draind.Base.{
  ℕ, zero, suc, ◌+◌, ◌*◌, ◌<◌, ◌≢◌, true, false, ◌||◌, Text, length, is_empty, tail, ◌==◌,
  out_of_fuel, arith,
}
use draind.Json.Value.{Fields, Floats, null, bool, end, insert}
use draind.Json.Number.{is_digit}
use draind.Json.Parser.{
  skip_ws, peek, parse_value, parse_object, parse_members, parse_array, parse_elements, parse,
}
use draind.Json.Shrinks.{
  Shrinks, shrunk, failed, Shrinks-ne-out_of_fuel, Shrinks-if, Shrinks-le, Shrinks-bind,
  length-skip_ws, length-tail, parse_string-Shrinks, parse_number-Shrinks, drop-Shrinks,
  length-peek,
}

module _ (fl : Floats) where
  mutual
    unfolding parse_value

    parse_value-Shrinks :
        (f : ℕ) (s : Text) → 3 * length s < f → Shrinks (length s) (parse_value fl f s)
    parse_value-Shrinks zero s h = absurd (omega arith)
    parse_value-Shrinks (suc f) s h =
        let t = skip_ws s in
        let c = peek t in
        Shrinks-if (is_empty t) (λ e. failed)
          (Shrinks-le
            (Shrinks-if (c == b'"')
              (λ e. Shrinks-bind _ (parse_string-Shrinks t) (λ a r k. shrunk k))
              (Shrinks-if (c == b'{')
                (λ e.
                  Shrinks-le
                    (parse_object-Shrinks f (tail t)
                      (omega (arith, length-peek t _ e, length-skip_ws s)))
                    (length-peek t _ e))
                (Shrinks-if (c == b'[')
                  (λ e.
                    Shrinks-le
                      (parse_array-Shrinks f (tail t)
                        (omega (arith, length-peek t _ e, length-skip_ws s)))
                      (length-peek t _ e))
                  (Shrinks-if (c == b't') (drop-Shrinks 3 _ t (bool true)) (
                    Shrinks-if (c == b'f') (drop-Shrinks 4 _ t (bool false)) (
                      Shrinks-if (c == b'n') (drop-Shrinks 3 _ t null) (
                        Shrinks-if (c == b'-' || is_digit c) (parse_number-Shrinks fl t)
                          failed)))))))
            (length-skip_ws s))

    parse_object-Shrinks :
        (f : ℕ) (s : Text) → 3 * length s + 2 < f → Shrinks (suc (length s)) (parse_object fl f s)
    parse_object-Shrinks zero s h = absurd (omega arith)
    parse_object-Shrinks (suc f) s h =
        let t = skip_ws s in
        Shrinks-if (peek t == b'}') (λ e. shrunk (omega (arith, length-tail t, length-skip_ws s)))
          (Shrinks-le (parse_members-Shrinks f end t (omega (arith, length-skip_ws s)))
            (omega (arith, length-skip_ws s)))

    parse_members-Shrinks :
        (f : ℕ) (obj : Fields) (s : Text)
        → 3 * length s + 1 < f
        → Shrinks (suc (length s)) (parse_members fl f obj s)
    parse_members-Shrinks zero obj s h = absurd (omega arith)
    parse_members-Shrinks (suc f) obj s h =
        Shrinks-bind _ (parse_string-Shrinks (skip_ws s)) λ key s₁ k₁.
          let left : length (tail (skip_ws s₁)) < length s =
            omega (arith, length-skip_ws s, length-skip_ws s₁, length-tail (skip_ws s₁)) in
          Shrinks-bind _
            (Shrinks-if (peek (skip_ws s₁) == b':')
              (λ e. parse_value-Shrinks f (tail (skip_ws s₁)) (omega arith)) failed)
            λ v s₃ k₃.
              let left' : length (tail (skip_ws s₃)) < length s =
                omega (arith, length-skip_ws s₃, length-tail (skip_ws s₃)) in
              Shrinks-if (peek (skip_ws s₃) == b'}') (λ e. shrunk (omega arith))
                (Shrinks-if (peek (skip_ws s₃) == b',')
                  (λ e.
                    Shrinks-le
                      (parse_members-Shrinks f (insert key v obj) (tail (skip_ws s₃)) (omega arith))
                      (omega arith))
                  failed)

    parse_array-Shrinks :
        (f : ℕ) (s : Text) → 3 * length s + 2 < f → Shrinks (suc (length s)) (parse_array fl f s)
    parse_array-Shrinks zero s h = absurd (omega arith)
    parse_array-Shrinks (suc f) s h =
        let t = skip_ws s in
        Shrinks-if (peek t == b']') (λ e. shrunk (omega (arith, length-tail t, length-skip_ws s)))
          (Shrinks-bind _ (parse_elements-Shrinks f t (omega (arith, length-skip_ws s)))
            λ xs r k. shrunk (omega (arith, length-skip_ws s)))

    parse_elements-Shrinks :
        (f : ℕ) (s : Text) → 3 * length s + 1 < f → Shrinks (suc (length s)) (parse_elements fl f s)
    parse_elements-Shrinks zero s h = absurd (omega arith)
    parse_elements-Shrinks (suc f) s h =
        Shrinks-bind _ (parse_value-Shrinks f s (omega arith)) λ v s₁ k₁.
          let left : length (tail (skip_ws s₁)) < length s =
            omega (arith, length-skip_ws s₁, length-tail (skip_ws s₁)) in
          Shrinks-if (peek (skip_ws s₁) == b']') (λ e. shrunk (omega arith))
            (Shrinks-if (peek (skip_ws s₁) == b',')
              (λ e.
                Shrinks-bind _ (parse_elements-Shrinks f (tail (skip_ws s₁)) (omega arith))
                  λ xs r k. shrunk (omega arith))
              failed)

  -- The fuel that `parse` hands out is enough for every text: it returns a value or throws.
  pub parse-ne-out_of_fuel : (s : Text) → parse fl s ≢ out_of_fuel
  unfolding parse
  parse-ne-out_of_fuel s =
      Shrinks-ne-out_of_fuel (λ v. v) (parse_value-Shrinks (3 * length s + 1) s (omega arith))
