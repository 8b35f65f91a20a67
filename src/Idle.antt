-- ===== src/Idle.antt =====
-- src/agent/input_idle_monitor.cpp: the timer that follows the input devices, and the calls that it
-- makes. The clock is an argument.
pub mod Timer
use draind.Base.{
  Text, codes, is_empty, starts_with, ℕ, ◌+◌, ◌-◌, ◌%◌, ◌^◌, Bool, true, false, not, ◌&&◌, ◌||◌,
  Option, none, some, List, [], ◌∷◌, ◌++◌, ℤ, pos, pos_part, ltb_ℤ, leb_ℤ, ◌-ℤ◌, to_int,
  if◌then◌else◌,
}

-- A call of `m_on_dim`, `m_on_sleep` or `m_on_active`.
pub data IdleCall : Type 0 where
  dims sleeps active : IdleCall

-- `timer` is the time at which the timer will fire, in milliseconds of the clock.
pub record InputIdle : Type 0 where
  pub dim_ms : ℤ
  pub sleep_ms : ℤ
  pub dimmed : Bool
  pub sleeping : Bool
  pub last_event_ms : ℕ
  pub timer : Option ℕ
  pub calls : List IdleCall

-- What `reset_idle_timer` does with a positive time, and with any other.
unfoldable pub arm_first : InputIdle → ℕ → ℤ → InputIdle
arm_first m now first_ms =
    if leb_ℤ first_ms (pos 0)
    then m
    else record m { timer = some (now + pos_part first_ms); dimmed = false; sleeping = false }

unfoldable pub reset_idle_timer : InputIdle → ℕ → InputIdle
unfolding arm_first
reset_idle_timer m now = arm_first m now (
    if ltb_ℤ (pos 0) m.dim_ms
    then m.dim_ms
    else if ltb_ℤ (pos 0) m.sleep_ms
    then m.sleep_ms
    else pos 0)

unfoldable pub set_timeouts : InputIdle → ℕ → ℤ → ℤ → InputIdle
unfolding reset_idle_timer
set_timeouts m now dim_ms sleep_ms =
    reset_idle_timer (record m { dim_ms = dim_ms; sleep_ms = sleep_ms }) now

-- `(int)(now - m_last_event_ms)`, where the difference is a `uint64_t`.
unfoldable pub elapsed_ms : InputIdle → ℕ → ℤ
elapsed_ms m now = to_int (pos ((now + (2 ^ 64 - m.last_event_ms)) % 2 ^ 64))

-- The timer for the sleep, behind a call of `m_on_dim`.
unfoldable pub arm_sleep : InputIdle → ℕ → ℤ → InputIdle
arm_sleep m now elapsed =
    if ltb_ℤ (pos 0) m.sleep_ms && not m.sleeping
    then record m {
      timer = some (
          now
          + (if ltb_ℤ (m.sleep_ms -ℤ elapsed) (pos 1)
              then 1
              else pos_part (m.sleep_ms -ℤ elapsed)));
    }
    else m

-- A threshold that is set has been reached.
abbrev pub is_due : ℤ → ℤ → Bool
is_due ms elapsed = ltb_ℤ (pos 0) ms && leb_ℤ ms elapsed

unfoldable pub timed_out : InputIdle → ℕ → ℤ → InputIdle
unfolding arm_sleep
timed_out m now elapsed =
    if not m.sleeping && is_due m.sleep_ms elapsed
    then record m { sleeping = true; calls = m.calls ++ sleeps ∷ [] }
    else if not m.dimmed && is_due m.dim_ms elapsed
    then arm_sleep (record m { dimmed = true; calls = m.calls ++ dims ∷ [] }) now elapsed
    else m

unfoldable pub on_timeout : InputIdle → ℕ → InputIdle
unfolding timed_out elapsed_ms
on_timeout m now = timed_out m now (elapsed_ms m now)

-- The case of an input device in `poll`.
unfoldable pub on_input : InputIdle → ℕ → InputIdle
unfolding reset_idle_timer
on_input m now =
    let reset = reset_idle_timer (record m { last_event_ms = now }) now in
    if m.dimmed || m.sleeping then record reset { calls = reset.calls ++ active ∷ [] } else reset

-- The timer fires, once: `poll` drains it.
unfoldable pub on_timer : InputIdle → ℕ → InputIdle
unfolding on_timeout
on_timer m now = on_timeout (record m { timer = none }) now

-- The monitor that `init` leaves, at the time of the clock; `none` where the epoll or the timer could
-- not be made. The timer is set by `reset_idle_timer`, if at all.
unfoldable pub init : Bool → Bool → ℕ → ℤ → ℤ → Option InputIdle
unfolding reset_idle_timer
init epoll_ok timer_ok now dim_ms sleep_ms =
    if epoll_ok && timer_ok
    then some (
        reset_idle_timer
          (record {
            dim_ms = dim_ms;
            sleep_ms = sleep_ms;
            dimmed = false;
            sleeping = false;
            last_event_ms = now;
            timer = none;
            calls = [];
          })
          now)
    else none

-- The paths that `open_input_devices` watches, out of the names in the directory, where it can be
-- opened, and of those paths that can be.
unfoldable pub device_paths : (Text → Bool) → List Text → List Text
device_paths opens [] = []
device_paths opens (name ∷ names) =
    let rest = device_paths opens names in
    let path = codes "/dev/input/" ++ name in
    if starts_with (codes "event") name && opens path then path ∷ rest else rest

unfoldable pub open_input_devices : (Text → Bool) → Option (List Text) → Bool × List Text
unfolding device_paths
open_input_devices opens none = (false, [])
open_input_devices opens (some names) =
    let paths = device_paths opens names in (not (is_empty paths), paths)

-- What `epoll_wait` reports to `poll`: the timer or a device, with the time of the clock.
pub data Wake : Type 0 where
  fires touched : ℕ → Wake

unfoldable pub poll : InputIdle → List Wake → InputIdle
unfolding on_timer on_input
poll m [] = m
poll m (fires now ∷ ws) = poll (on_timer m now) ws
poll m (touched now ∷ ws) = poll (on_input m now) ws
