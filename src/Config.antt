-- ===== src/Config.antt =====
-- src/shared/config.hpp and src/shared/config.cpp: the profiles, their lookup and the loading of the
-- configuration file.
pub mod Loading
use draind.Base.{
  Bool, Option, none, some, List, [], ◌∷◌, ◌++◌, Text, codes, is_empty, text_eq, ℤ, pos, to_int,
  Result, ok, err, ◌>>=◌, if◌then◌else◌,
}
use draind.Json.Value.{Value, Items, Floats, nil, cons, get_array, index, str, num}
use draind.Json.Parser.{parse}

pub record Profile : Type 0 where
  pub name : Text
  pub cpu_governor : Text
  pub cpu_epp : Text
  pub brightness_percent : ℤ
  pub dim_brightness_percent : ℤ
  pub dim_timeout : ℤ
  pub sleep_timeout : ℤ
  pub lid_close_action : Text
  pub power_button_action : Text
  pub sleep_button_action : Text

pub record Config : Type 0 where
  pub active_profile : Text
  pub profiles : List Profile

unfoldable pub find_profile : Text → List Profile → Option Profile
find_profile name [] = none
find_profile name (p ∷ ps) = if text_eq p.name name then some p else find_profile name ps

-- `Config::find`.
unfoldable pub find : Config → Text → Option Profile
find c name = find_profile name c.profiles

-- The checks behind the loop.
unfoldable pub finish_config : Text → List Profile → Result Config
finish_config active [] = err (codes "config has no profiles")
finish_config active (p ∷ ps) =
    ok (record { active_profile = if is_empty active then p.name else active; profiles = p ∷ ps })

module _ (fl : Floats) where
  -- The fields of one profile, with their defaults.
  unfoldable pub read_profile : Value → Profile
  read_profile v = record {
    name = str v (codes "name") [];
    cpu_governor = str v (codes "cpu_governor") [];
    cpu_epp = str v (codes "cpu_epp") [];
    brightness_percent = to_int (num fl v (codes "brightness_percent") (pos 100));
    dim_brightness_percent = to_int (num fl v (codes "dim_brightness_percent") (pos 20));
    dim_timeout = to_int (num fl v (codes "dim_timeout") (pos 300));
    sleep_timeout = to_int (num fl v (codes "sleep_timeout") (pos 600));
    lid_close_action = str v (codes "lid_close_action") (codes "suspend");
    power_button_action = str v (codes "power_button_action") (codes "poweroff");
    sleep_button_action = str v (codes "sleep_button_action") (codes "suspend");
  }

  -- The loop over the profiles.
  unfoldable pub read_profiles : Items → Result (List Profile)
  read_profiles nil = ok []
  read_profiles (cons v vs) =
      let rest = read_profiles vs >>= (λ ps. ok (read_profile v ∷ ps)) in
      if is_empty (read_profile v).name then err (codes "profile missing 'name'") else rest

  -- `load_config`: `none` is a file that cannot be opened.
  unfoldable pub load_config : Text → Option Text → Result Config
  load_config path none = err (codes "cannot open config: " ++ path)
  load_config path (some text) = do
    root ← parse fl text
    profiles ← read_profiles (get_array (index root (codes "profiles")))
    finish_config (str root (codes "active_profile") []) profiles
