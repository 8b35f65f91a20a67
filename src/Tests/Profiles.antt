-- ===== src/Tests/Profiles.antt =====
-- The laws of `draindctl set-profile` at concrete inputs: the profile "home" is set again.
use draind.Base.{
  ℕ, ◌≡◌, refl, true, false, none, some, Option, List, [], ◌∷◌, ◌++◌, map, Text, codes, pos, negsuc,
  arith, text_eq, done, left,
}
use draind.Socket.Lines.{concat}
use draind.Config
use draind.Config.{Profile}
use draind.Power
use draind.Power.{Power, set_brightness_percent}
use draind.Protocol.{encode_ctl_reply, encode_config}
use draind.Agent.{Monitor, on_daemon_line}
use draind.Agent.Retiming.{GoesBy}
use draind.Tests.Together.{waiting_agent}
use draind.Agent.Orders.{in_ms}
use draind.Daemon.State.{Daemon, profile, is_active_agent}
use draind.Daemon.Control.{reply_ok}
use draind.Daemon.Handlers.{on_active}
use draind.Daemon.Loop.{on_line}
use draind.Ctl.{Command, request, exchange, chunk, line}
use draind.Ctl.SetProfile.{switched_daemon, set_profile_reaches_agents}
use draind.Ctl.WhileDimmed.{profile_lost_while_dimmed}
use draind.Tests.Json.{no_floats}
use draind.Tests.Machine.{home, laptop}
use draind.Tests.Agents.{start, env}
use draind.Tests.Desk.{around}

-- No policy, and a backlight that nobody can write.
abbrev bare : Power
bare = record laptop { policies = none; accepts = λ path value. false }

abbrev room : Daemon
room = record start { power = bare }

home-found : Config.find room.manager.config (codes "home") ≡ some home
unfolding Config.find Config.find_profile text_eq
home-found = refl

home-applied : Power.apply bare home ≡ done bare
unfolding Power.apply set_brightness_percent Power.find_backlight_path Power.first_backlight
    Power.set_cpu_epp Power.set_nodes Power.cpu_policy_paths Power.set_cpu_governor Power.read_file
    text_eq Power.stoi draind.Json.Number.is_digit
home-applied = refl

abbrev answer : Text
answer = encode_ctl_reply no_floats (reply_ok true)

set_profile_reaches_agents_example :
    let told =
      switched_daemon no_floats (λ x. tt) env room 5 (codes "s") [] (codes "home") home bare in
    (on_line no_floats env room 5 (request no_floats (Command.set_profile (codes "home")))
      ≡ done told)
    × (profile told ≡ some home)
    × (exchange no_floats
          (codes "s")
          (Command.set_profile (codes "home"))
          (some (map chunk (answer ∷ (10 ∷ []) ∷ [])))
          []
        ≡ record { code = 0; out = line (codes "ok"); errors = [] })
    × (m : Monitor) × (on_daemon_line no_floats around waiting_agent
          (encode_config no_floats (pos 300) (pos 600))
        ≡ record waiting_agent { idle = some m })
    × GoesBy around (in_ms (pos 300)) (in_ms (pos 600)) m
set_profile_reaches_agents_example =
    set_profile_reaches_agents no_floats (λ x. tt) env room 5 (codes "s") [] (codes "home") home
      bare (answer ∷ (10 ∷ []) ∷ []) around waiting_agent _ home-found home-applied
      (unfold concat in refl) (omega arith, omega arith) (omega arith, omega arith) refl

-- The same while the screen is dimmed from 52 percent.
abbrev dark_power : Power
dark_power = record bare { user_brightness = pos 52 }

abbrev dark : Daemon
dark = record start { power = dark_power; dimmed = true }

dark-applied : Power.apply dark_power home ≡ done dark_power
unfolding Power.apply set_brightness_percent Power.find_backlight_path Power.first_backlight
    Power.set_cpu_epp Power.set_nodes Power.cpu_policy_paths Power.set_cpu_governor Power.read_file
    text_eq Power.stoi draind.Json.Number.is_digit
dark-applied = refl

dark-set : set_brightness_percent dark_power (pos 52) ≡ done dark_power
unfolding set_brightness_percent Power.find_backlight_path Power.first_backlight Power.read_file
    text_eq Power.stoi draind.Json.Number.is_digit
dark-set = refl

dark-active : is_active_agent dark 7 ≡ true
unfolding is_active_agent draind.Base.Maps.lookup text_eq
dark-active = refl

profile_lost_while_dimmed_example :
    let told =
      switched_daemon no_floats
        (λ x. tt)
        env
        dark
        5
        (codes "s")
        []
        (codes "home")
        home
        dark_power in
    (on_line no_floats env dark 5 (request no_floats (Command.set_profile (codes "home")))
      ≡ done told)
    × (told.dimmed ≡ true)
    × (on_active told 7
        ≡ done (record told {
          power = record dark_power { user_brightness = negsuc 0 };
          dimmed = false;
        }))
profile_lost_while_dimmed_example =
    profile_lost_while_dimmed no_floats (λ x. tt) env dark 5 (codes "s") [] (codes "home") home
      dark_power dark_power 52 7 home-found dark-applied refl refl dark-active dark-set
