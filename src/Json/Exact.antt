-- ===== src/Json/Exact.antt =====
-- The values of src/shared/json.hpp that are printed without loss.
use draind.Base.{◌≡◌, true, Text, text_ltb}
use draind.Json.Value.{
  Value, Items, Fields, null, bool, int, double, string, array, object, nil, cons, end, field,
}
use draind.Json.Digits.{IsInt64}

-- Every key of `fs` lies above `k`.
abbrev pub KeysAbove : Text → Fields → Type 0
KeysAbove k end = Unit
KeysAbove k (field j v fs) = (text_ltb k j ≡ true) × KeysAbove k fs

-- Every key of `fs` lies below `k`.
abbrev pub KeysBelow : Fields → Text → Type 0
KeysBelow end k = Unit
KeysBelow (field j v fs) k = (text_ltb j k ≡ true) × KeysBelow fs k

-- What the program can hold and prints without loss: the integers are in the range of `int64_t`,
-- the keys of an object are in the order of the map, and there is no float.
abbrev mutual
  pub IsExact : Value → Type 0
  IsExact null = Unit
  IsExact (bool b) = Unit
  IsExact (int n) = IsInt64 n
  IsExact (double x) = ⊥
  IsExact (string s) = Unit
  IsExact (array xs) = AreExact xs
  IsExact (object fs) = FieldsExact fs

  pub AreExact : Items → Type 0
  AreExact nil = Unit
  AreExact (cons x xs) = IsExact x × AreExact xs

  pub FieldsExact : Fields → Type 0
  FieldsExact end = Unit
  FieldsExact (field k v fs) = KeysAbove k fs × IsExact v × FieldsExact fs
