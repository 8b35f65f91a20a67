-- ===== src/Json/Assign.antt =====
-- What an assignment to a key of a value of src/shared/json.hpp leaves to be read.
use draind.Base.{
  ◌≡◌, refl, false, some, Text, text_eq, text_eq_refl, text_eq_iff, arith, if◌then◌else◌,
}
use draind.Json.Value.{
  Value, Fields, string, object, end, field, find, insert, get_object, assign, index, has, str,
  get_string,
}

-- The lookup behind an assignment.
pub find-insert :
    (k j : Text) (v : Value) (fs : Fields)
    → find j (insert k v fs) ≡ (if text_eq j k then some v else find j fs)
unfolding find insert
find-insert k j v end = refl
find-insert k j v (field i w fs) =
    ground (arith, text_eq_iff k i, text_eq_iff j k, text_eq_iff j i, find-insert k j v fs)

-- Another key reads as before.
pub index-assign :
    (k j t : Text) (v : Value) → text_eq j k ≡ false → index (assign v k (string t)) j ≡ index v j
unfolding index assign get_object find insert
index-assign k j t (object fs) e = rw (find-insert k j (string t) fs, e) refl
index-assign k j t Value.null e = rw e refl
index-assign k j t (Value.bool b) e = rw e refl
index-assign k j t (Value.int n) e = rw e refl
index-assign k j t (Value.double x) e = rw e refl
index-assign k j t (string s) e = rw e refl
index-assign k j t (Value.array xs) e = rw e refl

-- The text that was assigned is read.
pub str-assign : (k t d : Text) (v : Value) → str (assign v k (string t)) k d ≡ t
unfolding str assign has index get_string
str-assign k t d v = rw (find-insert k k (string t) (get_object v), text_eq_refl k) refl
