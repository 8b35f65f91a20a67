-- ===== src/Battery/Reading.antt =====
-- `read` of src/shared/battery.hpp: the search for a battery in sysfs, its fields and the estimate
-- of the time. The files are a function from paths to contents, `none` where one cannot be opened.
use draind.Base.{
  ℕ, zero, suc, Bool, true, false, ◌||◌, Option, none, some, [], ◌∷◌, ◌++◌, Text, codes, is_empty,
  ℤ, pos, negsuc, pos_part, to_int, to_int64, ltb_ℤ, ◌-ℤ◌, ◌*ℤ◌, ◌/ℤ◌, ◌==◌, if◌then◌else◌, tail,
}
use draind.Json.Number.{digits, span_digits, stoll}
use draind.Json.Parser.{peek}
use draind.Power.{skip_space}
use draind.Battery.{Status, BatteryInfo, discharging, charging, absent, parse_status}

-- `f >> out`: white space, a sign and digits in the range of `int64_t`.
unfoldable pub extract_int : Text → Option ℤ
unfolding skip_space span_digits stoll peek
extract_int s =
    let t = skip_space s in
    let signed = peek t == b'-' || peek t == b'+' in
    stoll (peek t == b'-') (span_digits (if signed then tail t else t)).0

-- The text in front of the first line break.
unfoldable pub first_line : Text → Text
first_line [] = []
first_line (c ∷ s) = let rest = first_line s in if c == 10 then [] else c ∷ rest

-- What the readings tell of the time: the remaining charge, the full one and the rate.
pub record Reading : Type 0 where
  pub remaining : ℤ
  pub total : ℤ
  pub rate : ℤ

-- Three numbers that could all be read, with a positive rate.
unfoldable pub reading : Option ℤ → Option ℤ → Option ℤ → Option Reading
reading (some remaining) (some total) (some rate) =
    if ltb_ℤ (pos 0) rate
    then some (record { remaining = remaining; total = total; rate = rate })
    else none
reading (some remaining) (some total) none = none
reading (some remaining) none rate = none
reading none total rate = none

-- `(int)(amount * 60 / rate)`.
unfoldable pub minutes : ℤ → ℤ → ℤ
minutes amount rate = to_int (to_int64 (amount *ℤ pos 60) /ℤ pos_part rate)

unfoldable pub to_empty : Status → Option Reading → Option ℤ
unfolding minutes
to_empty discharging (some r) =
    if ltb_ℤ (pos 0) r.remaining then some (minutes r.remaining r.rate) else none
to_empty _ _ = none

unfoldable pub to_full : Status → Option Reading → Option ℤ
unfolding minutes
to_full charging (some r) =
    if ltb_ℤ r.remaining r.total
    then some (minutes (to_int64 (r.total -ℤ r.remaining)) r.rate)
    else none
to_full _ _ = none

module _ (files : Text → Option Text) where
  int_of : Option Text → Option ℤ
  int_of none = none
  int_of (some s) = extract_int s

  unfoldable pub read_int : Text → Option ℤ
  unfolding int_of extract_int
  read_int path = int_of (files path)

  line_of : Option Text → Option Text
  line_of none = none
  line_of (some s) = let line = first_line s in if is_empty line then none else some line

  unfoldable pub read_str : Text → Option Text
  unfolding line_of first_line
  read_str path = line_of (files path)

  -- The energy files, or the charge files where these do not tell.
  unfoldable pub read_reading : Text → Option Reading
  unfolding reading read_int
  read_reading base =
      elim (reading (read_int (base ++ codes "/energy_now"))
        (read_int (base ++ codes "/energy_full")) (read_int (base ++ codes "/power_now"))) [
          | some r ↦ some r
          | none ↦
              reading (read_int (base ++ codes "/charge_now"))
                (read_int (base ++ codes "/charge_full")) (read_int (base ++ codes "/current_now"))
        ]

  status_of : Option Text → Status
  unfolding parse_status
  status_of none = absent
  status_of (some s) = parse_status s

  percent_of : Option ℤ → ℤ
  percent_of none = negsuc 0
  percent_of (some v) = to_int v

  -- The supply of this number, which is there.
  unfoldable pub read_supply : Text → BatteryInfo
  unfolding status_of percent_of read_str read_int read_reading to_empty to_full
  read_supply name =
      let base = codes "/sys/class/power_supply/" ++ name in
      let status = status_of (read_str (base ++ codes "/status")) in
      record {
        present = true;
        name = name;
        percent = percent_of (read_int (base ++ codes "/capacity"));
        status = status;
        time_to_empty_min = to_empty status (read_reading base);
        time_to_full_min = to_full status (read_reading base);
      }

  unfoldable pub supply_name : ℕ → Text
  supply_name i = codes "BAT" ++ digits i

  no_battery : BatteryInfo
  no_battery = record {
    present = false;
    name = [];
    percent = negsuc 0;
    status = absent;
    time_to_empty_min = none;
    time_to_full_min = none;
  }

  -- `probe` is true.
  unfoldable pub has_supply : ℕ → Bool
  has_supply i =
      elim (files (codes "/sys/class/power_supply/" ++ (supply_name i ++ codes "/present"))) [
        | none ↦ false
        | some s ↦ true
      ]

  -- The loop over the next `n` numbers from `i` on.
  unfoldable pub read_from : ℕ → ℕ → BatteryInfo
  unfolding has_supply read_supply no_battery
  read_from zero i = no_battery
  read_from (suc n) i =
      let later = read_from n (suc i) in if has_supply i then read_supply (supply_name i) else later

  unfoldable pub read : BatteryInfo
  unfolding read_from
  read = read_from 10 0
