-- ===== src/Tests/Evening.antt =====
-- The laws of the dimming and of the sleep, from the agent's clock on, at a concrete system.
use draind.Base.{◌+◌, done, ◌≡◌, refl, true, false, none, some, [], ◌∷◌, codes, text_eq, pos, arith}
use draind.Base.Maps.{lookup}
use draind.Idle.{InputIdle, touched, fires}
use draind.Idle.Timer.{with_times}
use draind.Agent.{Agent, input, started, on_daemon_line}
use draind.System.{System, acted, is_playing, idle_agent}
use draind.Mpris.Board.{nobody}
use draind.Agent.Running.{wakes, poll_idle}
use draind.Protocol.{encode_idle_dim, encode_idle_sleep, encode_lock}
use draind.Daemon.Loop.{on_line}
use draind.System.Dimming.{idle_dims_screen}
use draind.System.Sleeping.{idle_sleeps_machine, suspended}
use draind.Daemon.State.{Daemon, lock_target}
use draind.Daemon.Marks.{IsUnmarked}
use draind.Tests.Json.{no_floats}
use draind.Tests.Agents.{
  calm, env, calm-active, calm-quiet, calm-profile, laptop-dims, dimmed_laptop,
}
use draind.Tests.Desk.{options, around}

abbrev clock : InputIdle
clock = record {
  dim_ms = pos 0;
  sleep_ms = pos 0;
  dimmed = false;
  sleeping = false;
  last_event_ms = 0;
  timer = none;
  calls = [];
}

abbrev sitter : Agent
sitter = record {
  opts = options;
  daemon_fd = some 4;
  buf = [];
  idle = some (input (with_times clock 1000 5000));
  mpris = none;
  deeds = [];
}

abbrev evening : System
evening = record { agent = sitter; players = nobody; daemon = calm; in_flight = [] }

calm-lookup :
    lookup 7 calm.agents ≡ some (record { session_id = codes "2"; uid = 1000; inhibits = [] })
unfolding lookup
calm-lookup = refl

-- The evening when the agent's timer has fired once, and twice.
abbrev dimming : System
dimming = acted evening nobody (
    poll_idle no_floats (idle_agent sitter) sitter.idle
      (wakes (touched 100 ∷ fires (100 + 1200) ∷ [])))

abbrev sleeping : System
sleeping = acted evening nobody (
    poll_idle no_floats (idle_agent sitter) sitter.idle
      (wakes (touched 100 ∷ fires (100 + 1200) ∷ fires (100 + 5000) ∷ [])))

abbrev dark : Daemon
dark = record calm { power = dimmed_laptop; dimmed = true }

idle_dims_screen_example :
    (dimming.in_flight ≡ (is_playing nobody, encode_idle_dim no_floats) ∷ [])
    × (on_line no_floats env calm 7 (encode_idle_dim no_floats) ≡ done dark)
idle_dims_screen_example =
    idle_dims_screen no_floats 7 evening env 4 clock 100 1000 5000 1200 _ _ dimmed_laptop refl refl
      refl refl refl (omega arith) (omega arith) (omega arith) (omega arith) (omega arith)
      calm-lookup calm-active calm-quiet refl calm-profile laptop-dims

calm-lock_target : lock_target calm.active_session calm.agents ≡ some 7
unfolding lock_target draind.Daemon.State.find_active draind.Session.is_active text_eq
calm-lock_target = refl

calm-IsUnmarked : IsUnmarked calm.conns
unfolding IsUnmarked
calm-IsUnmarked = tt

idle_sleeps_machine_example :
    (sleeping.in_flight
      ≡ (is_playing nobody, encode_idle_dim no_floats)
        ∷ (is_playing nobody, encode_idle_sleep no_floats)
        ∷ [])
    × (on_line no_floats env calm 7 (encode_idle_dim no_floats) ≡ done dark)
    × (on_line no_floats env dark 7 (encode_idle_sleep no_floats)
        ≡ done (suspended no_floats 7 dark))
    × ((on_daemon_line no_floats around (idle_agent sleeping.agent) (encode_lock no_floats)).deeds
        ≡ started (codes "swaylock") ∷ [])
idle_sleeps_machine_example =
    idle_sleeps_machine no_floats 7 evening env around 4 clock 100 1000 5000 1200 5000 _ _
      dimmed_laptop refl refl refl refl refl (omega arith) (omega arith) (omega arith) (omega arith)
      (omega arith) (omega arith) refl refl calm-lookup calm-active calm-lock_target calm-IsUnmarked
      calm-quiet refl calm-profile refl laptop-dims
