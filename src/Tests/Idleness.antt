-- ===== src/Tests/Idleness.antt =====
-- The laws of the idle timer at concrete inputs.
use draind.Base.{◌≡◌, ◌+◌, true, false, some, none, [], ◌∷◌, ◌++◌, pos, arith}
use draind.Idle.{InputIdle, dims, sleeps, on_input, on_timer, set_timeouts}
use draind.Idle.Timer.{
  with_times, calls_behind_input, dims_then_sleeps, short_sleep_waits, set_timeouts_forgets,
}

-- A monitor that has reported a dimming.
abbrev idle : InputIdle
idle = record {
  dim_ms = pos 300;
  sleep_ms = pos 600;
  dimmed = true;
  sleeping = false;
  last_event_ms = 1000;
  timer = none;
  calls = dims ∷ [];
}

dims_then_sleeps_example :
    ((on_input (with_times idle 300 600) 2000).timer ≡ some (2000 + 300))
    × ((on_timer (on_input (with_times idle 300 600) 2000) (2000 + 301)).calls
        ≡ calls_behind_input idle ++ dims ∷ [])
    × ((on_timer (on_input (with_times idle 300 600) 2000) (2000 + 301)).timer ≡ some (2000 + 600))
    × ((on_timer
          (on_timer (on_input (with_times idle 300 600) 2000) (2000 + 301))
          (2000 + 600)).calls
        ≡ (calls_behind_input idle ++ dims ∷ []) ++ sleeps ∷ [])
dims_then_sleeps_example =
    dims_then_sleeps idle 2000 300 600 301 600 (omega arith) (omega arith) (omega arith)
      (omega arith) (omega arith) (omega arith)

short_sleep_waits_example :
    ((on_input (with_times idle 300 100) 2000).timer ≡ some (2000 + 300))
    × ((on_input (with_times idle 300 100) 2000).calls ≡ calls_behind_input idle)
    × ((on_timer (on_input (with_times idle 300 100) 2000) (2000 + 300)).calls
        ≡ calls_behind_input idle ++ sleeps ∷ [])
short_sleep_waits_example =
    short_sleep_waits idle 2000 300 100 (omega arith) (omega arith) (omega arith) (omega arith)

set_timeouts_forgets_example :
    (on_input (set_timeouts idle 1500 (pos 300) (pos 0)) 2000).calls ≡ dims ∷ []
set_timeouts_forgets_example = set_timeouts_forgets idle 1500 2000 300 0 (omega arith)
