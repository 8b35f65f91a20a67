-- ===== src/Battery.antt =====
-- src/shared/battery.hpp: what is known of the battery, and the words for its state.
pub mod Reading
pub mod Estimate
use draind.Base.{Bool, Option, Text, codes, text_eq, ℤ, if◌then◌else◌}

pub data Status : Type 0 where
  unknown discharging charging full not_charging absent : Status

pub record BatteryInfo : Type 0 where
  pub present : Bool
  pub name : Text
  pub percent : ℤ
  pub status : Status
  pub time_to_empty_min : Option ℤ
  pub time_to_full_min : Option ℤ

unfoldable pub parse_status : Text → Status
parse_status s =
    if text_eq s (codes "Discharging")
    then discharging
    else if text_eq s (codes "Charging")
    then charging
    else if text_eq s (codes "Full")
    then full
    else if text_eq s (codes "Not charging")
    then not_charging
    else unknown

unfoldable pub status_string : Status → Text
status_string discharging = codes "discharging"
status_string charging = codes "charging"
status_string full = codes "full"
status_string not_charging = codes "not_charging"
status_string absent = codes "absent"
status_string unknown = codes "unknown"
