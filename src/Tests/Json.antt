-- ===== src/Tests/Json.antt =====
-- src/shared/json.hpp on a small document, and the witnesses of the laws.
use draind.Base.{
  ◌≡◌, refl, false, none, [], ◌∷◌, codes, pos, negsuc, ok, text_eq, text_ltb, ◌≢◌, out_of_fuel,
  arith,
}
use draind.Json.Value.{
  Value, Floats, null, bool, int, string, array, object, nil, cons, end, field, insert,
}
use draind.Json.Number.{digits, to_string, is_digit, stoll}
use draind.Json.Parser.{parse, parse_string, parse_number, number_value}
use draind.Json.Pretty.{parse-dump_pretty}
use draind.Json.Printer.{dump, dump_pretty, escape}
use draind.Json.Exact.{IsExact}
use draind.Json.RoundTrip.{parse-dump}
use draind.Json.Fuel.{parse-ne-out_of_fuel}
use draind.Json.NoFloat.{HasNoFloat}

-- A library that knows no float.
abbrev pub no_floats : Floats
no_floats = record { stod = λ s. none; print_g = λ x. []; to_int64 = λ x. pos x }

abbrev pub sample : Value
sample = object (
    field (codes "a")
      (array (cons (int (negsuc 11)) (cons (string (10 ∷ 92 ∷ b'"' ∷ [])) (cons null nil))))
      (field (codes "b") (bool false) (field (codes "c") (object end) end)))

parse-sample :
    parse no_floats (codes "{ \"c\" :{}, \"a\": [-12,\"\\n\\\\\\\"\" , null],\"b\":false}")
    ≡ ok sample
unfolding parse parse_string parse_number number_value stoll insert is_digit text_eq text_ltb
parse-sample = refl

dump-sample :
    dump no_floats sample ≡ codes "{\"a\":[-12,\"\\n\\\\\\\"\",null],\"b\":false,\"c\":{}}"
unfolding dump escape to_string digits
dump-sample = refl

sample-IsExact : IsExact sample
unfolding text_ltb
sample-IsExact = (
  (refl, (refl, tt)),
  ((omega arith, omega arith), (tt, (tt, tt))),
  ((refl, tt), tt, (tt, tt, tt)),
)

sample-HasNoFloat : HasNoFloat sample
sample-HasNoFloat = ((tt, (tt, (tt, tt))), (tt, (tt, tt)))

parse-dump_example : parse no_floats (dump no_floats sample) ≡ ok sample
parse-dump_example = parse-dump no_floats sample sample-IsExact

parse-ne-out_of_fuel_example : parse no_floats (codes "{\"a\":[[1],2") ≢ out_of_fuel
parse-ne-out_of_fuel_example = parse-ne-out_of_fuel no_floats (codes "{\"a\":[[1],2")

parse-dump_pretty_example : parse no_floats (dump_pretty no_floats 2 sample) ≡ ok sample
parse-dump_pretty_example = parse-dump_pretty no_floats 2 sample sample-IsExact
