-- ===== src/Json/Parser.antt =====
-- `json::detail::Parser` and `json::parse` of src/shared/json.hpp. The parser's state is the text
-- between `p` and `end`; each method returns what it leaves of it.
use draind.Base.{
  ℕ, zero, suc, ◌+◌, ◌*◌, Bool, true, false, ◌&&◌, ◌||◌, Option, none, some, [], ◌∷◌, ◌++◌, Text,
  codes, is_empty, length, tail, drop, ◌==◌, if◌then◌else◌, Result, ok, err, out_of_fuel, ◌>>=◌,
}
use draind.Json.Value.{
  Value, Items, Fields, Floats, null, bool, int, double, string, array, object, nil, cons, end,
  insert,
}
use draind.Json.Number.{is_digit, span_digits, stoll}

unfoldable pub is_space : ℕ → Bool
is_space c = c == b' ' || (c == 9 || (c == 13 || c == 10))

unfoldable pub skip_ws : Text → Text
unfolding is_space
skip_ws [] = []
skip_ws (c ∷ s) = if is_space c then skip_ws s else c ∷ s

-- The character at `p`, or '\0' at the end.
unfoldable pub peek : Text → ℕ
peek [] = 0
peek (c ∷ s) = c

-- The character that a backslash and `c` stand for.
unfoldable pub unescape : ℕ → ℕ
unescape c = if c == b'n' then 10 else if c == b'r' then 13 else if c == b't' then 9 else c

-- One more character in front of the text that was read.
unfoldable pub put : ℕ → Result (Text × Text) → Result (Text × Text)
put c (ok (s, r)) = ok (c ∷ s, r)
put c (err e) = err e
put c out_of_fuel = out_of_fuel

-- The loop of `parse_string`, behind the opening quote.
unfoldable pub string_chars : Text → Result (Text × Text)
unfolding put unescape
string_chars [] = err (codes "json: unterminated string")
string_chars (c ∷ []) = if c == b'"' then ok ([], []) else err (codes "json: unterminated string")
string_chars (c ∷ d ∷ s) =
    let escaped = put (unescape d) (string_chars s) in
    let plain = put c (string_chars (d ∷ s)) in
    if c == b'"' then ok ([], d ∷ s) else if c == 92 then escaped else plain

unfoldable pub parse_string : Text → Result (Text × Text)
unfolding string_chars peek
parse_string s = if peek s == b'"' then string_chars (tail s) else err (codes "json: expected '\"'")

-- The fraction that may follow the digits, from its dot on.
unfoldable pub frac_part : Text → Text × Text
unfolding span_digits
frac_part [] = ([], [])
frac_part (c ∷ s) = let (ds, r) = span_digits s in if c == b'.' then (c ∷ ds, r) else ([], c ∷ s)

-- The sign that may follow the letter of an exponent.
unfoldable pub exp_sign : Text → Text × Text
exp_sign [] = ([], [])
exp_sign (c ∷ s) = if c == b'+' || c == b'-' then (c ∷ [], s) else ([], c ∷ s)

-- The exponent that may follow, from its letter on.
unfoldable pub exp_part : Text → Text × Text
unfolding span_digits exp_sign
exp_part [] = ([], [])
exp_part (c ∷ s) =
    let (sign, s') = exp_sign s in
    let (ds, r) = span_digits s' in
    if c == b'e' || c == b'E' then (c ∷ (sign ++ ds), r) else ([], c ∷ s)

module _ {ℓ} {A : Type ℓ} where
  -- A conversion that throws does so with its own name.
  unfoldable pub converted : Text → (A → Value) → Option A → Text → Result (Value × Text)
  converted name f none r = err name
  converted name f (some a) r = ok (f a, r)

-- The value of a number that was cut into its parts: a float if it has a fraction or an exponent.
unfoldable pub number_value : Floats → Bool → Text → Text → Text → Text → Result (Value × Text)
unfolding converted
number_value fl minus ds frac ex r =
    let sign : Text = if minus then b'-' ∷ [] else [] in
    let float = converted (codes "stod") double (fl.stod (sign ++ (ds ++ (frac ++ ex)))) r in
    let whole = converted (codes "stoll") int (stoll minus ds) r in
    if is_empty frac && is_empty ex then whole else float

unfoldable pub parse_number : Floats → Text → Result (Value × Text)
unfolding span_digits frac_part exp_part peek
parse_number fl s =
    let minus = peek s == b'-' in
    let (ds, s₂) = span_digits (if minus then tail s else s) in
    let (frac, s₃) = frac_part s₂ in
    let (ex, s₄) = exp_part s₃ in number_value fl minus ds frac ex s₄

-- Each call costs a unit of fuel. A literal is skipped by its length, whatever its letters are; a
-- `drop` beyond the end leaves nothing, as `p >= end` does.
module _ (fl : Floats) where
  unfoldable mutual
    unfolding skip_ws peek

    pub parse_value : ℕ → Text → Result (Value × Text)
    parse_value zero s = out_of_fuel
    parse_value (suc f) s =
        let t = skip_ws s in
        let c = peek t in
        let obj = parse_object f (tail t) in
        let arr = parse_array f (tail t) in
        if is_empty t
        then err (codes "json: unexpected end")
        else if c == b'"'
        then parse_string t >>= (λ (s', r). ok (string s', r))
        else if c == b'{'
        then obj
        else if c == b'['
        then arr
        else if c == b't'
        then ok (bool true, drop 4 t)
        else if c == b'f'
        then ok (bool false, drop 5 t)
        else if c == b'n'
        then ok (null, drop 4 t)
        else if c == b'-' || is_digit c
        then parse_number fl t
        else err (codes "json: unexpected char: " ++ c ∷ [])

    -- Behind the opening brace.
    pub parse_object : ℕ → Text → Result (Value × Text)
    parse_object zero s = out_of_fuel
    parse_object (suc f) s =
        let t = skip_ws s in
        let members = parse_members f end t in
        if peek t == b'}' then ok (object end, tail t) else members

    -- The loop of `parse_object`: one key and its value, then the next or the end.
    pub parse_members : ℕ → Fields → Text → Result (Value × Text)
    parse_members zero obj s = out_of_fuel
    parse_members (suc f) obj s = do
      (key, s₁) ← parse_string (skip_ws s)
      let s₂ = skip_ws s₁
      let colon = parse_value f (tail s₂)
      (v, s₃) ← (if peek s₂ == b':' then colon else err (codes "json: expected ':'"))
      let s₄ = skip_ws s₃
      let more = parse_members f (insert key v obj) (tail s₄)
      if peek s₄ == b'}'
          then ok (object (insert key v obj), tail s₄)
          else if peek s₄ == b','
          then more
          else err (codes "json: expected ',' or '}'")

    -- Behind the opening bracket.
    pub parse_array : ℕ → Text → Result (Value × Text)
    parse_array zero s = out_of_fuel
    parse_array (suc f) s =
        let t = skip_ws s in
        let elements = parse_elements f t >>= (λ (xs, r). ok (array xs, r)) in
        if peek t == b']' then ok (array nil, tail t) else elements

    -- The loop of `parse_array`: one element, then the next or the end.
    pub parse_elements : ℕ → Text → Result (Items × Text)
    parse_elements zero s = out_of_fuel
    parse_elements (suc f) s = do
      (v, s₁) ← parse_value f s
      let s₂ = skip_ws s₁
      let more = parse_elements f (tail s₂) >>= (λ (xs, r). ok (cons v xs, r))
      if peek s₂ == b']'
          then ok (cons v nil, tail s₂)
          else if peek s₂ == b','
          then more
          else err (codes "json: expected ',' or ']'")

  -- `json::parse`: what follows the first value is not read.
  unfoldable pub parse : Text → Result Value
  unfolding parse_value
  parse s = parse_value (3 * length s + 1) s >>= (λ (v, r). ok v)
