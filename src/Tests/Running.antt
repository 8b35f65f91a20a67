-- ===== src/Tests/Running.antt =====
-- The laws of the start of the daemon, of the sessions, of the inhibits, of the battery and of
-- `draindctl` at concrete inputs.
use draind.Base.{
  ℕ, ◌≡◌, ◌≢◌, ◌<◌, refl, sym, ◌∙◌, Bool, true, false, not, ◌&&◌, none, some, Option, List, [], ◌∷◌,
  ◌++◌, map, Text, codes, pos, arith, text_eq, done, ok, is_empty, left, if◌then◌else◌,
}
use draind.Config
use draind.Json.Value.{assign, array}
use draind.Socket.Lines.{concat}
use draind.Session.Follows.{last_or, named}
use draind.Battery.{BatteryInfo}
use draind.Battery.Reading.{has_supply, read, read_supply, supply_name, read_reading}
use draind.Battery.Estimate.{read_supply-estimate, is_discharging, is_charging}
use draind.Protocol.{encode_ctl_reply}
use draind.Daemon.State.{
  Daemon, Env, do_suspend, is_active_agent, run_hw_action, send, send_lock_to_active_agent,
}
use draind.Daemon.Control.{profile_names, reply_ok, reply_error}
use draind.Daemon.Loop.{connects, logind, loop, on_line, step}
use draind.Daemon.Board.{Board, Agrees, obey_all}
use draind.Daemon.Refines.{Input, message, gone, handle_all, handle_all-Agrees, asks}
use draind.Daemon.Setup.{Boot, setup}
use draind.Daemon.Start.{started_never_asks}
use draind.Daemon.Switching.{step-logind}
use draind.Daemon.Inhibits.{holds, is_registered}
use draind.Ctl.{chunk, exchange, list_profiles, set_profile, line, request}
use draind.Ctl.Listing.{list_profiles_prints, unknown_profile_fails, name_lines}
use draind.Tests.Json.{no_floats}
use draind.Tests.Machine.{laptop}
use draind.Tests.Agents.{start, env, mpris, switch_to, agent-lookup}

abbrev boot : Boot
boot = record {
  path = codes "draind.json";
  file = some (codes "{\"profiles\":[{\"name\":\"home\"}]}");
  writable = true;
  power = record laptop { backlights = none; policies = none };
  logind = record { opened = true; seat = none; active = none };
  socket = record { descriptor = some 3; bound = true; listens = true };
}

boot-daemon : (d : Daemon) × (setup no_floats boot ≡ ok d)
unfolding setup Config.load_config draind.Json.Parser.parse draind.Json.Parser.parse_string
    Config.read_profiles draind.Json.Value.get_array draind.Json.Value.index draind.Json.Value.find
    draind.Json.Value.insert text_eq Config.read_profile draind.Json.Value.str draind.Json.Value.has
    draind.Json.Value.get_string Config.finish_config draind.Daemon.Control.apply_by
    draind.Daemon.State.profile draind.Base.to_int draind.Base.text_ltb Config.find
    Config.find_profile draind.Daemon.Setup.from_outcome draind.Daemon.Setup.start
    draind.Daemon.State.with_power draind.Json.Number.is_digit draind.Json.Value.num
    draind.Manager.active_profile draind.Power.apply draind.Power.set_brightness_percent
    draind.Power.set_cpu_epp draind.Power.set_cpu_governor draind.Power.find_backlight_path
    draind.Power.cpu_policy_paths draind.Power.first_backlight draind.Server.init
boot-daemon = (_, refl)

started_never_asks_example :
    do_suspend no_floats env
      (codes "suspend")
      (left (loop no_floats boot-daemon.0 ((env, connects 5) ∷ [])))
    ≡ run_hw_action
        (send_lock_to_active_agent no_floats
          (left (loop no_floats boot-daemon.0 ((env, connects 5) ∷ []))))
        (codes "suspend")
started_never_asks_example =
    started_never_asks no_floats boot boot-daemon.0 ((env, connects 5) ∷ []) env (codes "suspend")
      boot-daemon.1

step-logind_example :
    (d : Daemon) × (step no_floats env start (logind (switch_to (codes "3") ∷ [])) ≡ done d)
    × (is_active_agent d 9 ≡ (
        not (is_empty (codes "3"))
        && text_eq (codes "3") (last_or (codes "2") (named (switch_to (codes "3") ∷ [])))))
    × (record d { active_session = codes "2" } ≡ start)
step-logind_example = step-logind no_floats env start (switch_to (codes "3") ∷ []) 9 _ agent-lookup

-- What the machine starts with, that agrees with the daemon.
abbrev board : Board
board = record { here = λ j. is_registered start j; has = λ j r. holds start j r }

start-Agrees : Agrees start board
start-Agrees = record { agents = λ j. refl; reasons = λ j r. refl }

abbrev inputs : List Input
inputs = message env 7 mpris ∷ gone 9 ∷ []

handle_all-Agrees_example :
    Agrees (handle_all no_floats start inputs) (obey_all board (asks inputs))
handle_all-Agrees_example = handle_all-Agrees no_floats start board inputs start-Agrees

-- A machine whose only battery has the number 1, and discharges.
abbrev battery_files : Text → Option Text
battery_files path =
    if text_eq path (codes "/sys/class/power_supply/BAT1/present")
    then some (codes "1")
    else if text_eq path (codes "/sys/class/power_supply/BAT1/status")
    then some (codes "Discharging" ++ 10 ∷ [])
    else if text_eq path (codes "/sys/class/power_supply/BAT1/energy_now")
    then some (codes "30000000" ++ 10 ∷ [])
    else if text_eq path (codes "/sys/class/power_supply/BAT1/energy_full")
    then some (codes "50000000" ++ 10 ∷ [])
    else if text_eq path (codes "/sys/class/power_supply/BAT1/power_now")
    then some (codes "10000000" ++ 10 ∷ [])
    else none

battery-1 : has_supply battery_files 1 ≡ true
unfolding has_supply text_eq supply_name draind.Json.Number.digits
battery-1 = refl

battery-0 : has_supply battery_files 0 ≡ false
unfolding has_supply text_eq supply_name draind.Json.Number.digits
battery-0 = refl

battery-readings :
    read_reading battery_files (codes "/sys/class/power_supply/" ++ codes "BAT1")
    ≡ some (record { remaining = pos 30000000; total = pos 50000000; rate = pos 10000000 })
unfolding read_reading text_eq draind.Battery.Reading.reading draind.Battery.Reading.extract_int
    draind.Battery.Reading.read_int draind.Json.Number.is_digit draind.Json.Number.stoll
    draind.Json.Number.span_digits draind.Power.skip_space
battery-readings = refl

read_supply-estimate_example :
    ((read_supply battery_files (codes "BAT1")).time_to_empty_min ≡ (
      if is_discharging (read_supply battery_files (codes "BAT1")).status
      then some (pos 180)
      else none))
    × ((read_supply battery_files (codes "BAT1")).time_to_full_min ≡ (
        if is_charging (read_supply battery_files (codes "BAT1")).status
        then some (pos 120)
        else none))
read_supply-estimate_example =
    read_supply-estimate 30000000 50000000 10000000 (omega arith) (omega arith) (omega arith)
      (omega arith) (omega arith) battery_files (codes "BAT1") battery-readings

-- The two replies.
abbrev profiles_answer : Text
profiles_answer = encode_ctl_reply no_floats (
    assign (reply_ok true) (codes "profiles") (array (profile_names start.manager.config.profiles)))

abbrev unknown_answer : Text
unknown_answer =
    encode_ctl_reply no_floats (reply_error (codes "profile not found: " ++ codes "work"))

list_profiles_prints_example :
    (on_line no_floats env start 5 (request no_floats list_profiles)
      ≡ done (send start 5 profiles_answer))
    × (exchange no_floats
          (codes "s")
          list_profiles
          (some (map chunk (profiles_answer ∷ (10 ∷ []) ∷ [])))
          []
        ≡ record { code = 0; out = name_lines start.manager.config.profiles; errors = [] })
list_profiles_prints_example =
    list_profiles_prints no_floats (λ x. tt) env start 5 (codes "s") []
      (profiles_answer ∷ (10 ∷ []) ∷ []) (unfold concat in refl)

work_missing : Config.find start.manager.config (codes "work") ≡ none
unfolding Config.find Config.find_profile text_eq
work_missing = refl

unknown_profile_fails_example :
    (on_line no_floats env start 5 (request no_floats (set_profile (codes "work")))
      ≡ done (send start 5 unknown_answer))
    × (exchange no_floats
          (codes "s")
          (set_profile (codes "work"))
          (some (map chunk (unknown_answer ∷ (10 ∷ []) ∷ [])))
          []
        ≡ record {
          code = 4;
          out = [];
          errors = line (codes "error: " ++ (codes "profile not found: " ++ codes "work"));
        })
unknown_profile_fails_example =
    unknown_profile_fails no_floats (λ x. tt) env start 5 (codes "s") [] (codes "work")
      (unknown_answer ∷ (10 ∷ []) ∷ []) work_missing (unfold concat in refl)
