-- ===== src/Manager.antt =====
-- src/daemon/config_manager.cpp: the loaded configuration, the profile in force and its file. The
-- calls of `m_on_change` are in Daemon/Config.
pub mod Persist
use draind.Base.{Bool, Option, none, some, Text, codes, Result, ok, err, out_of_fuel, if◌then◌else◌}
use draind.Json.Value.{Value, Floats, string, assign}
use draind.Json.Parser.{parse}
use draind.Json.Printer.{dump_pretty}
use draind.Config.{Profile, Config, find, load_config}

-- `file` is what stands at `path`, `none` where it cannot be opened; `writable` says whether it can
-- be opened for writing.
pub record ConfigManager : Type 0 where
  pub path : Text
  pub file : Option Text
  pub writable : Bool
  pub config : Config
  pub active : Text

unfoldable pub active_profile : ConfigManager → Option Profile
active_profile m = find m.config m.active

module _ (fl : Floats) where
  -- The rewritten file, where the old one parses.
  rewritten : ConfigManager → Result Value → ConfigManager
  rewritten m (ok root) =
      if m.writable
      then record m {
        file = some (dump_pretty fl 2 (assign root (codes "active_profile") (string m.active)));
      }
      else m
  rewritten m (err e) = m
  rewritten m out_of_fuel = m

  persist_file : ConfigManager → Option Text → ConfigManager
  unfolding rewritten
  persist_file m none = m
  persist_file m (some text) = rewritten m (parse fl text)

  unfoldable pub persist_active : ConfigManager → ConfigManager
  unfolding persist_file
  persist_active m = persist_file m m.file

  -- `set_active` up to the call of `m_on_change`; `none` where the name is not found.
  unfoldable pub set_active : ConfigManager → Text → Option ConfigManager
  set_active m name = elim (find m.config name) [
    | none ↦ none
    | some p ↦ some (persist_active (record m { active = name }))
  ]

  -- `reload` up to the call of `m_on_change`: a file that does not load changes nothing.
  unfoldable pub reload : ConfigManager → Result ConfigManager
  reload m = elim (load_config fl m.path m.file) [
    | ok c ↦ ok (record m { config = c; active = c.active_profile })
    | err e ↦ err e
    | out_of_fuel ↦ out_of_fuel
  ]
