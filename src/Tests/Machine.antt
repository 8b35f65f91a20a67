-- ===== src/Tests/Machine.antt =====
-- The laws of the power manager and of the wait for the acks at concrete inputs.
use draind.Base.{
  ◌↔◌, ℕ, ◌≡◌, ◌≢◌, ◌*◌, ◌+◌, ◌<◌, ◌≤◌, refl, true, false, not, ◌&&◌, [], ◌∷◌, ◌++◌, Text, codes,
  All, pos, negsuc, none, some, Option, arith, text_eq, text_eq-ne, if◌then◌else◌, is_empty, done,
}
use draind.Json.Number.{to_string}
use draind.Config.{Profile}
use draind.Power.{
  Power, rstrip, find_backlight_path, read_file, stoi, dim, undim, set_cpu_governor,
  cpu_policy_paths,
}
use draind.Power.Cpu.{set_cpu_governor_lem, IsStripped, TakesAll}
use draind.Power.Brightness.{brightness_file, max_file, TakesBrightness, undim_after_dim}
use draind.Server.{ready, silent, expired, got, wait_acks}
use draind.Server.Acks.{is_in, InTime, wait_acks_left}

abbrev pub home : Profile
home = record {
  name = codes "home";
  cpu_governor = codes "powersave";
  cpu_epp = codes "power";
  brightness_percent = pos 80;
  dim_brightness_percent = pos 10;
  dim_timeout = pos 300;
  sleep_timeout = pos 600;
  lid_close_action = codes "suspend";
  power_button_action = codes "poweroff";
  sleep_button_action = codes "suspend";
}

-- A backlight that stands at 500 of 960.
abbrev pub sysfs : Text → Option Text
sysfs path =
    if text_eq path (codes "/sys/class/backlight/intel/brightness")
    then some (codes "500" ++ 10 ∷ [])
    else if text_eq path (codes "/sys/class/backlight/intel/max_brightness")
    then some (codes "960" ++ 10 ∷ [])
    else none

abbrev pub laptop : Power
laptop = record {
  files = sysfs;
  accepts = λ path value. true;
  backlights = some (codes "." ∷ codes ".." ∷ codes "intel" ∷ []);
  policies = some (codes "boost" ∷ codes "policy0" ∷ codes "policy4" ∷ []);
  user_brightness = negsuc 0;
}

laptop-path : is_empty (find_backlight_path laptop) ≡ false
unfolding find_backlight_path draind.Power.first_backlight
laptop-path = refl

laptop-max : stoi (read_file laptop (max_file laptop)) ≡ some (pos 960)
unfolding stoi read_file max_file find_backlight_path text_eq draind.Power.first_backlight
    draind.Json.Number.is_digit
laptop-max = refl

laptop-current : stoi (read_file laptop (brightness_file laptop)) ≡ some (pos 500)
unfolding stoi read_file brightness_file find_backlight_path text_eq draind.Power.first_backlight
    draind.Json.Number.is_digit
laptop-current = refl

undim_after_dim_example :
    (w : Power) × (u : Power) × (v : ℕ) × (dim laptop home ≡ done w)
    × (undim w home ≡ done u)
    × (u.files (brightness_file laptop) ≡ some (to_string (pos v)))
    × (u.user_brightness ≡ negsuc 0)
    × (v ≤ 500)
    × (500 * 100 < v * 100 + 100 + 960)
unfolding TakesBrightness
undim_after_dim_example =
    undim_after_dim laptop 960 500 home home laptop-path laptop-max laptop-current (λ v. refl)
      (omega arith) (omega arith)

laptop-policies :
    cpu_policy_paths laptop
    ≡ codes "/sys/devices/system/cpu/cpufreq/policy0"
      ∷ codes "/sys/devices/system/cpu/cpufreq/policy4"
      ∷ []
unfolding cpu_policy_paths draind.Base.starts_with
laptop-policies = refl

laptop-takes :
    TakesAll laptop (cpu_policy_paths laptop) (codes "/scaling_governor") (codes "powersave")
laptop-takes = rw laptop-policies (refl, (refl, tt))

-- The backlight is none of the nodes.
laptop-away :
    All
      (λ path. path ++ codes "/scaling_governor" ≢ codes "/sys/class/backlight/intel/brightness")
      (cpu_policy_paths laptop)
unfolding text_eq
laptop-away = rw laptop-policies (text_eq-ne _ _ refl, (text_eq-ne _ _ refl, tt))

powersave-IsStripped : IsStripped (codes "powersave")
unfolding rstrip
powersave-IsStripped = refl

set_cpu_governor_lem_example :
    All
      (λ path.
        read_file (set_cpu_governor laptop (codes "powersave")) (path ++ codes "/scaling_governor")
        ≡ codes "powersave")
      (cpu_policy_paths laptop)
    × ((set_cpu_governor laptop (codes "powersave")).files
          (codes "/sys/class/backlight/intel/brightness")
        ≡ laptop.files (codes "/sys/class/backlight/intel/brightness"))
set_cpu_governor_lem_example =
    set_cpu_governor_lem laptop (codes "powersave") (codes "/sys/class/backlight/intel/brightness")
      refl powersave-IsStripped laptop-takes laptop-away

wait_acks_left_example :
    (is_in 7 (
        wait_acks
          (7 ∷ 8 ∷ [])
          (silent ∷ ready ((8, got (codes "{\"type\":\"ack\"}")) ∷ []) ∷ expired ∷ []))
      ≡ true)
    ↔ ((is_in 7 (7 ∷ 8 ∷ []) ≡ true)
        × ¬ InTime 7 (silent ∷ ready ((8, got (codes "{\"type\":\"ack\"}")) ∷ []) ∷ expired ∷ []))
wait_acks_left_example =
    wait_acks_left 7 (7 ∷ 8 ∷ [])
      (silent ∷ ready ((8, got (codes "{\"type\":\"ack\"}")) ∷ []) ∷ expired ∷ [])
