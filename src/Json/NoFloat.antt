-- ===== src/Json/NoFloat.antt =====
-- Values of src/shared/json.hpp without a float: what was parsed and holds none is printed without
-- loss.
use draind.Base.{◌≡◌, ok, Text}
use draind.Json.Value.{
  Value, Items, Fields, Floats, null, bool, int, double, string, array, object, nil, cons, end,
  field,
}
use draind.Json.Parser.{parse}
use draind.Json.Printer.{dump}
use draind.Json.Exact.{IsExact, AreExact, FieldsExact}
use draind.Json.RoundTrip.{parse-dump}
use draind.Json.WellFormed.{IsWellFormed, AreWellFormed, FieldsWellFormed, parse-IsWellFormed}

abbrev mutual
  pub HasNoFloat : Value → Type 0
  HasNoFloat null = Unit
  HasNoFloat (bool b) = Unit
  HasNoFloat (int n) = Unit
  HasNoFloat (double x) = ⊥
  HasNoFloat (string s) = Unit
  HasNoFloat (array xs) = HaveNoFloat xs
  HasNoFloat (object fs) = FieldsHaveNoFloat fs

  pub HaveNoFloat : Items → Type 0
  HaveNoFloat nil = Unit
  HaveNoFloat (cons x xs) = HasNoFloat x × HaveNoFloat xs

  pub FieldsHaveNoFloat : Fields → Type 0
  FieldsHaveNoFloat end = Unit
  FieldsHaveNoFloat (field k v fs) = HasNoFloat v × FieldsHaveNoFloat fs

mutual
  pub IsWellFormed-IsExact : (v : Value) → IsWellFormed v → HasNoFloat v → IsExact v
  IsWellFormed-IsExact null h n = tt
  IsWellFormed-IsExact (bool b) h n = tt
  IsWellFormed-IsExact (int z) h n = h
  IsWellFormed-IsExact (double x) h n = n
  IsWellFormed-IsExact (string s) h n = tt
  IsWellFormed-IsExact (array xs) h n = AreWellFormed-AreExact xs h n
  IsWellFormed-IsExact (object fs) h n = FieldsWellFormed-FieldsExact fs h n

  AreWellFormed-AreExact : (xs : Items) → AreWellFormed xs → HaveNoFloat xs → AreExact xs
  AreWellFormed-AreExact nil h n = tt
  AreWellFormed-AreExact (cons x xs) (h, hs) (n, ns) =
      (IsWellFormed-IsExact x h n, AreWellFormed-AreExact xs hs ns)

  FieldsWellFormed-FieldsExact :
      (fs : Fields) → FieldsWellFormed fs → FieldsHaveNoFloat fs → FieldsExact fs
  FieldsWellFormed-FieldsExact end h n = tt
  FieldsWellFormed-FieldsExact (field k v fs) (a, h, hs) (n, ns) =
      (a, IsWellFormed-IsExact v h n, FieldsWellFormed-FieldsExact fs hs ns)

-- Printing and parsing again what was parsed gives the same value, if it holds no float.
pub parse-dump-parse :
    (fl : Floats) (s : Text) (v : Value)
    → parse fl s ≡ ok v
    → HasNoFloat v
    → parse fl (dump fl v) ≡ ok v
parse-dump-parse fl s v e n =
    parse-dump fl v (IsWellFormed-IsExact v (parse-IsWellFormed fl s v e) n)
