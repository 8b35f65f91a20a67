-- ===== src/Json/Entries.antt =====
-- The entries of an object of src/shared/json.hpp, which the parser inserts one after another.
use draind.Base.{◌≡◌, refl, ap, true, Text, text_ltb, text_ltb-ne, text_ltb-asymm}
use draind.Json.Value.{Value, Fields, end, field, insert}
use draind.Json.Exact.{KeysAbove, KeysBelow}

-- `fs` behind the entries of `acc`.
abbrev pub append : Fields → Fields → Fields
append end fs = fs
append (field j w acc) fs = field j w (append acc fs)

pub append-end : (acc : Fields) → append acc end ≡ acc
append-end end = refl
append-end (field j w acc) = ap (field j w) (append-end acc)

pub fields_assoc :
    (acc : Fields) (k : Text) (v : Value) (fs : Fields)
    → append (append acc (field k v end)) fs ≡ append acc (field k v fs)
fields_assoc end k v fs = refl
fields_assoc (field j w acc) k v fs = ap (field j w) (fields_assoc acc k v fs)

-- A key above all the others is entered at the end of the map.
pub insert-append :
    (k : Text) (v : Value) (acc : Fields)
    → KeysBelow acc k
    → insert k v acc ≡ append acc (field k v end)
unfolding insert
insert-append k v end h = refl
insert-append k v (field j w acc) (h, hs) =
    rw (text_ltb-ne j k h, text_ltb-asymm j k h, insert-append k v acc hs)

-- Every key of `acc` lies below every key of `fs`.
abbrev pub AllBelow : Fields → Fields → Type 0
AllBelow acc end = Unit
AllBelow acc (field k v fs) = KeysBelow acc k × AllBelow acc fs

pub KeysBelow-append :
    (acc : Fields) (k : Text) (v : Value) (j : Text)
    → KeysBelow acc j
    → text_ltb k j ≡ true
    → KeysBelow (append acc (field k v end)) j
KeysBelow-append end k v j h l = (l, tt)
KeysBelow-append (field i w acc) k v j (h, hs) l = (h, KeysBelow-append acc k v j hs l)

pub AllBelow-append :
    (acc : Fields) (k : Text) (v : Value) (fs : Fields)
    → AllBelow acc fs
    → KeysAbove k fs
    → AllBelow (append acc (field k v end)) fs
AllBelow-append acc k v end h l = tt
AllBelow-append acc k v (field j w fs) (h, hs) (l, ls) =
    (KeysBelow-append acc k v j h l, AllBelow-append acc k v fs hs ls)

pub AllBelow-end : (fs : Fields) → AllBelow end fs
AllBelow-end end = tt
AllBelow-end (field k v fs) = (tt, AllBelow-end fs)
