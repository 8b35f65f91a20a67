-- ===== src/Power.antt =====
-- src/daemon/power_manager.cpp: the backlight and the CPU policy, through the files of sysfs.
pub mod Cpu
pub mod Saved
pub mod Brightness
use draind.Base.{
  starts_with, ℕ, zero, suc, Bool, true, false, ◌&&◌, ◌||◌, Option, none, some, List, [], ◌∷◌, ◌++◌,
  Text, codes, is_empty, text_eq, ℤ, pos, negsuc, neg, to_int, int_half, ◌*ℤ◌, ◌/ℤ◌, ltb_ℤ, ltb,
  leb, ◌==◌, if◌then◌else◌, Outcome, done, throws, tail,
}
use draind.Json.Number.{span_digits, digits_value, to_string}
use draind.Json.Parser.{peek}
use draind.Config.{Profile}

-- What the files hold (`none` where a stream cannot be opened), which writes succeed, the entries
-- of /sys/class/backlight and of /sys/devices/system/cpu/cpufreq (`none` where the directory cannot
-- be opened), and the brightness that was saved before the dimming (-1 where none was).
pub record Power : Type 0 where
  pub files : Text → Option Text
  pub accepts : Text → Text → Bool
  pub backlights : Option (List Text)
  pub policies : Option (List Text)
  pub user_brightness : ℤ

unfoldable pub update : (Text → Option Text) → Text → Text → Text → Option Text
update files path value other = if text_eq path other then some value else files other

-- `write_file`: the new files and whether the write succeeded.
unfoldable pub write_file : Power → Text → Text → Power × Bool
write_file p path value =
    if p.accepts path value
    then (record p { files = update p.files path value }, true)
    else (p, false)

-- The text without the line breaks and spaces at its end.
unfoldable pub rstrip : Text → Text
rstrip [] = []
rstrip (c ∷ s) = let r = rstrip s in if is_empty r && (c == 10 || c == b' ') then [] else c ∷ r

unfoldable pub stripped : Option Text → Text
unfolding rstrip
stripped none = []
stripped (some s) = rstrip s

unfoldable pub read_file : Power → Text → Text
unfolding stripped
read_file p path = stripped (p.files path)

-- The entries that begin with "policy".
unfoldable pub policy_paths : List Text → List Text
policy_paths [] = []
policy_paths (d ∷ ds) =
    let rest = policy_paths ds in
    if starts_with (codes "policy") d
    then (codes "/sys/devices/system/cpu/cpufreq/" ++ d) ∷ rest
    else rest

entries : Option (List Text) → List Text
entries none = []
entries (some ds) = ds

unfoldable pub cpu_policy_paths : Power → List Text
unfolding entries policy_paths
cpu_policy_paths p = policy_paths (entries p.policies)

-- The first entry that does not begin with a dot.
unfoldable pub first_backlight : List Text → Text
unfolding peek
first_backlight [] = []
first_backlight (d ∷ ds) =
    if peek d == b'.' then first_backlight ds else codes "/sys/class/backlight/" ++ d

unfoldable pub find_backlight_path : Power → Text
unfolding entries
find_backlight_path p = first_backlight (entries p.backlights)

-- `std::stoi`: white space, a sign and digits; `none` where it throws.
unfoldable pub skip_space : Text → Text
skip_space [] = []
skip_space (c ∷ s) = if c == b' ' || (leb 9 c && leb c 13) then skip_space s else c ∷ s

unfoldable pub stoi_digits : Bool → Text → Option ℤ
stoi_digits minus [] = none
stoi_digits true (c ∷ ds) =
    let n = digits_value 0 (c ∷ ds) in if leb n int_half then some (neg n) else none
stoi_digits false (c ∷ ds) =
    let n = digits_value 0 (c ∷ ds) in if ltb n int_half then some (pos n) else none

unfoldable pub stoi : Text → Option ℤ
unfolding skip_space stoi_digits span_digits peek
stoi s =
    let t = skip_space s in
    let signed = peek t == b'-' || peek t == b'+' in
    stoi_digits (peek t == b'-') (span_digits (if signed then tail t else t)).0

-- `max_val * pct / 100`.
unfoldable pub target_brightness : ℤ → ℤ → ℤ
target_brightness max_val pct = to_int (max_val *ℤ pct) /ℤ 100

-- The brightness is written when its maximum could be read.
unfoldable pub write_target : Power → Text → ℤ → Option ℤ → Outcome Power
unfolding write_file
write_target p base pct none = throws (codes "stoi") p
write_target p base pct (some max_val) =
    done (write_file p (base ++ codes "/brightness") (to_string (target_brightness max_val pct))).0

-- `set_brightness_percent`; its result, which no caller reads, is left out.
unfoldable pub set_brightness_percent : Power → ℤ → Outcome Power
unfolding write_target
set_brightness_percent p pct =
    let base = find_backlight_path p in
    let max_s = read_file p (base ++ codes "/max_brightness") in
    if is_empty base || is_empty max_s then done p else write_target p base pct (stoi max_s)

-- `cur * 100 / max_val`, or -1 if the maximum is not positive; `none` where `std::stoi` throws.
unfoldable pub percent_of : Option ℤ → Option ℤ → Option ℤ
percent_of none cur = none
percent_of (some (negsuc m)) cur = some (negsuc 0)
percent_of (some (pos zero)) cur = some (negsuc 0)
percent_of (some (pos (suc m))) none = none
percent_of (some (pos (suc m))) (some cur) = some (to_int (cur *ℤ pos 100) /ℤ suc m)

-- `get_brightness_percent`: -1 on failure, `none` where it throws.
unfoldable pub get_brightness_percent : Power → Option ℤ
unfolding percent_of
get_brightness_percent p =
    let base = find_backlight_path p in
    let cur_s = read_file p (base ++ codes "/brightness") in
    let max_s = read_file p (base ++ codes "/max_brightness") in
    if is_empty base || (is_empty cur_s || is_empty max_s)
    then some (negsuc 0)
    else percent_of (stoi max_s) (stoi cur_s)

-- The loop over the policies: a node that holds the value already is not written.
unfoldable pub set_nodes : Power → List Text → Text → Text → Power
unfolding write_file
set_nodes p [] file value = p
set_nodes p (path ∷ paths) file value =
    set_nodes
      (if text_eq (read_file p (path ++ file)) value
        then p
        else (write_file p (path ++ file) value).0)
      paths file value

-- `set_cpu_governor` and `set_cpu_epp`; their results, which no caller reads, are left out.
unfoldable pub set_cpu_governor : Power → Text → Power
set_cpu_governor p gov =
    if is_empty gov then p else set_nodes p (cpu_policy_paths p) (codes "/scaling_governor") gov

unfoldable pub set_cpu_epp : Power → Text → Power
set_cpu_epp p epp =
    if is_empty epp
    then p
    else set_nodes p (cpu_policy_paths p) (codes "/energy_performance_preference") epp

-- `run_command`: the command that is handed to `system`, if any. Nothing calls it.
unfoldable pub run_command : Text → Option Text
run_command cmd = if is_empty cmd then none else some cmd

unfoldable pub apply : Power → Profile → Outcome Power
apply p prof =
    set_brightness_percent (set_cpu_epp (set_cpu_governor p prof.cpu_governor) prof.cpu_epp)
      prof.brightness_percent

-- The brightness that `dim` saves: the current one, or that of the profile where none was read.
unfoldable pub saved_brightness : Profile → ℤ → ℤ
saved_brightness prof current = if ltb_ℤ current (pos 0) then prof.brightness_percent else current

-- `dim` behind the reading of the current brightness.
unfoldable pub dim_from : Power → Profile → Option ℤ → Outcome Power
dim_from p prof none = throws (codes "stoi") p
dim_from p prof (some current) =
    set_brightness_percent (record p { user_brightness = saved_brightness prof current })
      prof.dim_brightness_percent

unfoldable pub dim : Power → Profile → Outcome Power
unfolding dim_from
dim p prof = dim_from p prof (get_brightness_percent p)

unfoldable pub forget_brightness : Outcome Power → Outcome Power
forget_brightness (done p) = done (record p { user_brightness = negsuc 0 })
forget_brightness (throws e p) = throws e p

unfoldable pub undim : Power → Profile → Outcome Power
unfolding forget_brightness
undim p prof = forget_brightness (
    set_brightness_percent p
      (if ltb_ℤ p.user_brightness (pos 0) then prof.brightness_percent else p.user_brightness))
