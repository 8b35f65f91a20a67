-- ===== src/Daemon/Main.antt =====
-- src/daemon/main.cpp: the options of the daemon.
use draind.Base.{
  Bool, true, false, ◌||◌, Option, none, some, List, [], ◌∷◌, Text, codes, text_eq, Result, ok, err,
  out_of_fuel, if◌then◌else◌,
}
use draind.Log.{LogLevel, info, parse_log_level}

pub record DaemonOptions : Type 0 where
  pub config_path : Text
  pub foreground : Bool
  pub log_level : LogLevel

abbrev pub default_options : DaemonOptions
default_options = record {
  config_path = codes "/etc/draind/draind.json";
  foreground = false;
  log_level = info;
}

read_level : DaemonOptions → Result LogLevel → Option DaemonOptions
read_level opts (ok level) = some (record opts { log_level = level })
read_level opts (err e) = none
read_level opts out_of_fuel = none

-- The options that take a value.
with_value : DaemonOptions → Text → Text → Option DaemonOptions
unfolding read_level
with_value opts a v =
    if text_eq a (codes "-c") || text_eq a (codes "--config")
    then some (record opts { config_path = v })
    else if text_eq a (codes "-l") || text_eq a (codes "--log-level")
    then read_level opts (parse_log_level v)
    else none

-- The loop over the arguments: `none` where it prints a message and returns 1.
unfoldable pub read_args : Option DaemonOptions → List Text → Option DaemonOptions
unfolding with_value
read_args none args = none
read_args (some opts) [] = some opts
read_args (some opts) (a ∷ []) =
    if text_eq a (codes "-f") || text_eq a (codes "--foreground")
    then some (record opts { foreground = true })
    else none
read_args (some opts) (a ∷ v ∷ args) =
    let after_flag = read_args (some (record opts { foreground = true })) (v ∷ args) in
    let after_value = read_args (with_value opts a v) args in
    if text_eq a (codes "-f") || text_eq a (codes "--foreground") then after_flag else after_value
