-- ===== src/Ctl/WhileDimmed.antt =====
-- `draindctl set-profile` while the screen is dimmed: what src/daemon/power_manager.cpp makes of the
-- brightness of the new profile.
use draind.Base.{ℕ, ◌≡◌, refl, ◌∙◌, true, false, some, Text, done, pos, negsuc}
use draind.Json.Value.{Floats}
use draind.Json.OneLine.{IsLine}
use draind.Config
use draind.Config.{Profile}
use draind.Power
use draind.Power.{
  Power, write_file, read_file, set_nodes, set_cpu_governor, set_cpu_epp, set_brightness_percent,
  write_target, forget_brightness, find_backlight_path, stoi, cpu_policy_paths,
}
use draind.Power.Saved.{apply-user, undim-saved}
use draind.Daemon.State.{Daemon, Env, is_active_agent, profile}
use draind.Daemon.Handlers.{on_active, undim_by}
use draind.Daemon.Loop.{on_line}
use draind.Ctl.{Command, request}
use draind.Ctl.SetProfile.{switched_daemon, on_line-set_profile, switched-profile}

-- Activity sets the brightness that was saved.
on_active-restores :
    (e : Daemon) (agent : ℕ) (p : Profile) (v : Power) (u : ℕ)
    → is_active_agent e agent ≡ true
    → e.dimmed ≡ true
    → profile e ≡ some p
    → e.power.user_brightness ≡ pos u
    → set_brightness_percent e.power (pos u) ≡ done v
    → on_active e agent
      ≡ done (record e { power = record v { user_brightness = negsuc 0 }; dimmed = false })
unfolding on_active undim_by profile
on_active-restores e agent p v u a m f b k =
    rw (a, m, f, undim_by, undim-saved e.power v p u b k) refl

module _ (fl : Floats) (printable : (x : ℕ) → IsLine (fl.print_g x)) (env : Env) (d : Daemon)
    (fd : ℕ) (socket error : Text) where
  -- While the screen is dimmed and a brightness is saved, set-profile applies the brightness of the new
  -- profile, but the screen still counts as dimmed; and the next report of activity by the active
  -- session's agent sets the brightness that was saved before, whatever the new profile says.
  pub profile_lost_while_dimmed :
      (name : Text) (p : Profile) (w v : Power) (u agent : ℕ)
      → Config.find d.manager.config name ≡ some p
      → Power.apply d.power p ≡ done w
      → d.dimmed ≡ true
      → d.power.user_brightness ≡ pos u
      → is_active_agent d agent ≡ true
      → set_brightness_percent w (pos u) ≡ done v
      → let e = switched_daemon fl printable env d fd socket error name p w in
        (on_line fl env d fd (request fl (Command.set_profile name)) ≡ done e)
        × (e.dimmed ≡ true)
        × (on_active e agent
            ≡ done (record e { power = record v { user_brightness = negsuc 0 }; dimmed = false }))
  unfolding is_active_agent profile draind.Daemon.State.send
  profile_lost_while_dimmed name p w v u agent f h m b a k = (
    on_line-set_profile fl printable env d fd socket error name p w f h,
    m,
    on_active-restores (switched_daemon fl printable env d fd socket error name p w) agent p v u a m
        (switched-profile fl d name p f) (apply-user d.power w p h ∙ b) k,
  )
