-- ===== src/Tests/Restart.antt =====
-- The law of the rewritten configuration file at a concrete file.
use draind.Base.{◌≡◌, refl, true, some, List, [], ◌∷◌, Text, codes, pos, text_eq, ok}
use draind.Json.Value.{Value, array, object, field, end, cons, nil, string}
use draind.Json.Parser.{parse}
use draind.Config
use draind.Config.{Profile, load_config}
use draind.Manager
use draind.Manager.{ConfigManager}
use draind.Manager.Persist.{reload-set_active}
use draind.Tests.Json.{no_floats}

-- A file with one profile, and what it holds.
abbrev one_profile : Text
one_profile = codes "{\"profiles\":[{\"name\":\"home\"}]}"

abbrev one_root : Value
one_root = object (
    field (codes "profiles")
      (array (cons (object (field (codes "name") (string (codes "home")) end)) nil)) end)

abbrev plain : Profile
plain = record {
  name = codes "home";
  cpu_governor = [];
  cpu_epp = [];
  brightness_percent = pos 100;
  dim_brightness_percent = pos 20;
  dim_timeout = pos 300;
  sleep_timeout = pos 600;
  lid_close_action = codes "suspend";
  power_button_action = codes "poweroff";
  sleep_button_action = codes "suspend";
}

abbrev one_manager : ConfigManager
one_manager = record {
  path = codes "draind.json";
  file = some one_profile;
  writable = true;
  config = record { active_profile = codes "home"; profiles = plain ∷ [] };
  active = codes "home";
}

one_root-parsed : parse no_floats one_profile ≡ ok one_root
unfolding parse draind.Json.Parser.parse_string draind.Json.Value.insert
one_root-parsed = refl

one_manager-loaded :
    load_config no_floats (codes "draind.json") (some one_profile) ≡ ok one_manager.config
unfolding load_config parse draind.Json.Parser.parse_string Config.read_profiles
    draind.Json.Value.get_array draind.Json.Value.index draind.Json.Value.find
    draind.Json.Value.insert text_eq Config.read_profile draind.Json.Value.str draind.Json.Value.has
    draind.Json.Value.get_string Config.finish_config draind.Base.to_int draind.Json.Value.num
one_manager-loaded = refl

plain-found : Config.find one_manager.config (codes "home") ≡ some plain
unfolding Config.find Config.find_profile text_eq
plain-found = refl

reload-set_active_example :
    (w : ConfigManager) × (u : ConfigManager) × (Manager.set_active no_floats one_manager
        (codes "home")
      ≡ some w)
    × (Manager.reload no_floats w ≡ ok u)
    × (u.config.profiles ≡ plain ∷ [])
    × (u.config.active_profile ≡ codes "home")
    × (Manager.active_profile w ≡ some plain)
    × (Manager.active_profile u ≡ some plain)
reload-set_active_example =
    reload-set_active no_floats one_manager one_profile (codes "home") one_root plain refl refl
      one_root-parsed (((tt, tt), tt), tt) one_manager-loaded plain-found
