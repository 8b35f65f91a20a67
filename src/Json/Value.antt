-- ===== src/Json/Value.antt =====
-- `json::Value` of src/shared/json.hpp: the variant, its accessors and the assignment to a key.
use draind.Base.{
  ℕ, Bool, true, false, Option, none, some, [], Text, text_eq, text_ltb, ℤ, if◌then◌else◌,
}

-- A `double` is its 64-bit pattern. `Items` is `Array`. `Fields` is `Object`, a `std::map`: its
-- entries stand in the order of the keys, each key once.
mutual
  pub data Value : Type 0 where
    null : Value
    bool : Bool → Value
    int : ℤ → Value
    double : ℕ → Value
    string : Text → Value
    array : Items → Value
    object : Fields → Value

  pub data Items : Type 0 where
    nil : Items
    cons : Value → Items → Items

  pub data Fields : Type 0 where
    end : Fields
    field : Text → Value → Fields → Fields

-- What the standard library does with a `double`: `std::stod` (`none` where it throws), the text
-- that `snprintf` makes with `%g`, and the cast to `int64_t`.
pub record Floats : Type 0 where
  pub stod : Text → Option ℕ
  pub print_g : ℕ → Text
  pub to_int64 : ℕ → ℤ

-- `std::map::find`.
unfoldable pub find : Text → Fields → Option Value
find k end = none
find k (field j v fs) = if text_eq k j then some v else find k fs

-- `o[key] = value` on a `std::map`.
unfoldable pub insert : Text → Value → Fields → Fields
insert k v end = field k v end
insert k v (field j w fs) =
    if text_eq k j
    then field j v fs
    else if text_ltb k j
    then field k v (field j w fs)
    else field j w (insert k v fs)

unfoldable pub is_object : Value → Bool
is_object (object fs) = true
is_object _ = false

unfoldable pub get_bool : Value → Bool → Bool
get_bool (bool b) d = b
get_bool _ d = d

unfoldable pub get_int : Floats → Value → ℤ → ℤ
get_int fl (int n) d = n
get_int fl (double x) d = fl.to_int64 x
get_int fl _ d = d

unfoldable pub get_string : Value → Text
get_string (string s) = s
get_string _ = []

unfoldable pub get_array : Value → Items
get_array (array xs) = xs
get_array _ = nil

unfoldable pub get_object : Value → Fields
get_object (object fs) = fs
get_object _ = end

is_some : Option Value → Bool
is_some none = false
is_some (some v) = true

or_null : Option Value → Value
or_null none = null
or_null (some v) = v

unfoldable pub has : Value → Text → Bool
unfolding is_some
has (object fs) k = is_some (find k fs)
has _ k = false

-- The `const` subscript: a missing key reads as null.
unfoldable pub index : Value → Text → Value
unfolding or_null
index (object fs) k = or_null (find k fs)
index _ k = null

-- `v[key] = value`: a value that is no object becomes an empty one first.
unfoldable pub assign : Value → Text → Value → Value
assign v k w = object (insert k w (get_object v))

unfoldable pub str : Value → Text → Text → Text
str v k d = if has v k then get_string (index v k) else d

unfoldable pub num : Floats → Value → Text → ℤ → ℤ
num fl v k d = if has v k then get_int fl (index v k) d else d

unfoldable pub flag : Value → Text → Bool → Bool
flag v k d = if has v k then get_bool (index v k) d else d

-- `push_back`.
unfoldable pub push_back : Items → Value → Items
push_back nil v = cons v nil
push_back (cons x xs) v = cons x (push_back xs v)

unfoldable pub push : Value → Value → Value
push v w = array (push_back (get_array v) w)
