-- ===== src/Json/WellFormed.antt =====
-- What src/shared/json.hpp parses is well formed: the keys of each object are in the order of the
-- map, each once, and each integer is in the range of `int64_t`.
use draind.Base.{
  ℕ, zero, suc, ◌≡◌, refl, Bool, true, false, Bool-cases, inl, inr, Option, none, some, [], ◌∷◌,
  Text, codes, text_eq, text_ltb, text_ltb_total, text_ltb_trans, is_empty, tail, length, subst,
  ◌+◌, ◌*◌, ◌==◌, ◌||◌, if◌then◌else◌, Result, ok, err, out_of_fuel, ◌>>=◌, arith, neg, ℤ,
  int64_half, ◌≤◌,
}
use draind.Json.Value.{
  Value, Items, Fields, Floats, null, bool, int, double, string, array, object, nil, cons, end,
  field, insert,
}
use draind.Json.Number.{is_digit, in_range, stoll}
use draind.Json.Parser.{
  skip_ws, peek, parse_string, converted, number_value, parse_number, parse_value, parse_object,
  parse_members, parse_array, parse_elements, parse,
}
use draind.Json.Digits.{IsInt64}
use draind.Json.Exact.{KeysAbove}

abbrev mutual
  pub IsWellFormed : Value → Type 0
  IsWellFormed null = Unit
  IsWellFormed (bool b) = Unit
  IsWellFormed (int n) = IsInt64 n
  IsWellFormed (double x) = Unit
  IsWellFormed (string s) = Unit
  IsWellFormed (array xs) = AreWellFormed xs
  IsWellFormed (object fs) = FieldsWellFormed fs

  pub AreWellFormed : Items → Type 0
  AreWellFormed nil = Unit
  AreWellFormed (cons x xs) = IsWellFormed x × AreWellFormed xs

  pub FieldsWellFormed : Fields → Type 0
  FieldsWellFormed end = Unit
  FieldsWellFormed (field k v fs) = KeysAbove k fs × IsWellFormed v × FieldsWellFormed fs

KeysAbove-trans : (j k : Text) (fs : Fields) → text_ltb j k ≡ true → KeysAbove k fs → KeysAbove j fs
KeysAbove-trans j k end l h = tt
KeysAbove-trans j k (field i v fs) l (h, hs) =
    (text_ltb_trans j k i l h, KeysAbove-trans j k fs l hs)

KeysAbove-insert :
    (j k : Text) (v : Value) (fs : Fields)
    → text_ltb j k ≡ true
    → KeysAbove j fs
    → KeysAbove j (insert k v fs)
unfolding insert
KeysAbove-insert j k v end l h = (l, tt)
KeysAbove-insert j k v (field i w fs) l (h, hs) = elim (Bool-cases (text_eq k i)) [
  | inl e ↦ rw e (h, hs)
  | inr e ↦ elim (Bool-cases (text_ltb k i)) [
    | inl b ↦ rw (e, b) (l, (h, hs))
    | inr b ↦ rw (e, b) (h, KeysAbove-insert j k v fs l hs)
  ]
]

-- An assignment to a key keeps the order of the map.
pub insert-FieldsWellFormed :
    (k : Text) (v : Value) (fs : Fields)
    → IsWellFormed v
    → FieldsWellFormed fs
    → FieldsWellFormed (insert k v fs)
unfolding insert
insert-FieldsWellFormed k v end hv h = (tt, hv, tt)
insert-FieldsWellFormed k v (field j w fs) hv (a, hw, h) = elim (Bool-cases (text_eq k j)) [
  | inl e ↦ rw e (a, hv, h)
  | inr e ↦ elim (Bool-cases (text_ltb k j)) [
    | inl b ↦ rw (e, b) ((b, KeysAbove-trans k j fs b a), hv, (a, hw, h))
    | inr b ↦
        rw (e, b)
          (
            KeysAbove-insert j k v fs (text_ltb_total k j e b) a,
            hw,
            insert-FieldsWellFormed k v fs hv h,
          )
  ]
]

-- If the call returned, `P` holds of its value.
data Returns {ℓ κ} {A : Type ℓ} (P : A → Type κ) : Result (A × Text) → Type (ℓ ⊔ κ) where
  returned : {a : A} {r : Text} → P a → Returns P (ok (a, r))
  threw : {e : Text} → Returns P (err e)
  stopped : Returns P out_of_fuel

module _ {ℓ κ} {A : Type ℓ} {P : A → Type κ} where
  Returns-if :
      (b : Bool) {x y : Result (A × Text)}
      → Returns P x
      → Returns P y
      → Returns P (if b then x else y)
  Returns-if true hx hy = hx
  Returns-if false hx hy = hy

  Returns-bind {ℓ' κ'} :
      {B : Type ℓ'} {Q : B → Type κ'} {r : Result (A × Text)} (f : A × Text → Result (B × Text))
      → Returns P r
      → ((a : A) (s : Text) → P a → Returns Q (f (a, s)))
      → Returns Q (r >>= f)
  Returns-bind f (returned {a} {r} h) k = k a r h
  Returns-bind f threw k = threw
  Returns-bind f stopped k = stopped

Returns-any {ℓ} : {A : Type ℓ} (r : Result (A × Text)) → Returns (λ _. Unit {0}) r
Returns-any (ok (a, s)) = returned tt
Returns-any (err e) = threw
Returns-any out_of_fuel = stopped

Returns-ok {ℓ κ} :
    {A : Type ℓ} {P : A → Type κ} {r : Result (A × Text)} {a : A} {s : Text}
    → Returns P r
    → r ≡ ok (a, s)
    → P a
Returns-ok {P} (returned h) e = subst P (cc) h
Returns-ok threw e = cc
Returns-ok stopped e = cc

neg-IsInt64 : (n : ℕ) → n ≤ int64_half → IsInt64 (neg n)
neg-IsInt64 zero h = omega arith
neg-IsInt64 (suc n) h = (omega arith, h)

converted-Returns {ℓ} :
    {A : Type ℓ} (name : Text) (f : A → Value) (o : Option A) (r : Text)
    → ((a : A) → o ≡ some a → IsWellFormed (f a))
    → Returns IsWellFormed (converted name f o r)
unfolding converted
converted-Returns name f none r h = threw
converted-Returns name f (some a) r h = returned (h a refl)

in_range-IsInt64 : (minus : Bool) (n : ℕ) (z : ℤ) → in_range minus n ≡ some z → IsInt64 z
unfolding in_range
in_range-IsInt64 true n z e = ground (arith, neg-IsInt64 n)
in_range-IsInt64 false n z e = ground arith

-- `std::stoll` returns a number in the range of its type.
stoll-IsInt64 : (minus : Bool) (ds : Text) (z : ℤ) → stoll minus ds ≡ some z → IsInt64 z
unfolding stoll
stoll-IsInt64 minus [] z e = cc
stoll-IsInt64 minus (c ∷ ds) z e = in_range-IsInt64 minus _ z e

parse_number-Returns : (fl : Floats) (t : Text) → Returns IsWellFormed (parse_number fl t)
unfolding parse_number number_value
parse_number-Returns fl t =
    Returns-if _ (converted-Returns (codes "stoll") int _ _ (stoll-IsInt64 _ _))
      (converted-Returns (codes "stod") double _ _ (λ a e. tt))

module _ (fl : Floats) where
  mutual
    unfolding parse_value

    parse_value-Returns : (f : ℕ) (s : Text) → Returns IsWellFormed (parse_value fl f s)
    parse_value-Returns zero s = stopped
    parse_value-Returns (suc f) s =
        let t = skip_ws s in
        let c = peek t in
        Returns-if (is_empty t) threw (
          Returns-if (c == b'"')
            (Returns-bind _ (Returns-any (parse_string t)) (λ a r k. returned tt))
            (Returns-if (c == b'{') (parse_object-Returns f (tail t)) (
              Returns-if (c == b'[') (parse_array-Returns f (tail t)) (
                Returns-if (c == b't') (returned tt) (
                  Returns-if (c == b'f') (returned tt) (
                    Returns-if (c == b'n') (returned tt)
                      (Returns-if (c == b'-' || is_digit c) (parse_number-Returns fl t) threw)))))))

    parse_object-Returns : (f : ℕ) (s : Text) → Returns IsWellFormed (parse_object fl f s)
    parse_object-Returns zero s = stopped
    parse_object-Returns (suc f) s =
        Returns-if (peek (skip_ws s) == b'}') (returned tt)
          (parse_members-Returns f end (skip_ws s) tt)

    parse_members-Returns :
        (f : ℕ) (obj : Fields) (s : Text)
        → FieldsWellFormed obj
        → Returns IsWellFormed (parse_members fl f obj s)
    parse_members-Returns zero obj s h = stopped
    parse_members-Returns (suc f) obj s h =
        Returns-bind _ (Returns-any (parse_string (skip_ws s))) λ key s₁ _.
          Returns-bind _
            (Returns-if (peek (skip_ws s₁) == b':') (parse_value-Returns f (tail (skip_ws s₁)))
              threw)
            λ v s₃ hv.
              let h' = insert-FieldsWellFormed key v obj hv h in
              Returns-if (peek (skip_ws s₃) == b'}') (returned h') (
                Returns-if (peek (skip_ws s₃) == b',')
                  (parse_members-Returns f (insert key v obj) (tail (skip_ws s₃)) h') threw)

    parse_array-Returns : (f : ℕ) (s : Text) → Returns IsWellFormed (parse_array fl f s)
    parse_array-Returns zero s = stopped
    parse_array-Returns (suc f) s =
        Returns-if (peek (skip_ws s) == b']') (returned tt)
          (Returns-bind _ (parse_elements-Returns f (skip_ws s)) (λ xs r k. returned k))

    parse_elements-Returns : (f : ℕ) (s : Text) → Returns AreWellFormed (parse_elements fl f s)
    parse_elements-Returns zero s = stopped
    parse_elements-Returns (suc f) s = Returns-bind _ (parse_value-Returns f s) λ v s₁ hv.
        Returns-if (peek (skip_ws s₁) == b']') (returned (hv, tt)) (
          Returns-if (peek (skip_ws s₁) == b',')
            (Returns-bind _ (parse_elements-Returns f (tail (skip_ws s₁)))
              (λ xs r k. returned (hv, k)))
            threw)

  finish-IsWellFormed :
      (r : Result (Value × Text)) (v : Value)
      → Returns IsWellFormed r
      → (r >>= (λ (w, s). ok w)) ≡ ok v
      → IsWellFormed v
  finish-IsWellFormed (ok (w, s)) v h e = subst IsWellFormed (cc) (Returns-ok h refl)
  finish-IsWellFormed (err x) v h e = cc
  finish-IsWellFormed out_of_fuel v h e = cc

  -- Whatever parses is well formed: its integers are in the range of `int64_t`, and the keys of its
  -- objects stand in the order of the map.
  pub parse-IsWellFormed : (s : Text) (v : Value) → parse fl s ≡ ok v → IsWellFormed v
  unfolding parse
  parse-IsWellFormed s v e = finish-IsWellFormed _ v (parse_value-Returns (3 * length s + 1) s) e
