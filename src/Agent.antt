-- ===== src/Agent.antt =====
-- src/agent/agent.cpp: the connection to the daemon, the idle monitor that is chosen, and what each
-- line of the daemon makes the agent do. The monitors are Wayland, Idle and Mpris.
pub mod Running
pub mod Start
pub mod Orders
pub mod Retiming
pub mod Life
use draind.Base.{
  ℕ, Bool, true, false, Option, none, some, List, [], ◌∷◌, ◌++◌, Text, codes, is_empty, text_eq, ℤ,
  pos, to_int, ◌*ℤ◌, Result, ok, err, out_of_fuel, if◌then◌else◌,
}
use draind.Json.Value.{Value, Floats, num}
use draind.Log.{LogLevel}
use draind.Idle
use draind.Idle.{IdleCall, dims, sleeps, active, InputIdle}
use draind.Wayland
use draind.Wayland.{WaylandIdle, Compositor, Answers}
use draind.Mpris.{Mpris, Call, inhibit, uninhibit}
use draind.Protocol.{
  decode, msg_type, t_config, t_lock, t_pre_sleep, t_ack, encode_hello, encode_idle_dim,
  encode_idle_sleep, encode_active, encode_inhibit, encode_uninhibit, encode_ack,
}

pub record AgentOptions : Type 0 where
  pub socket_path : Text
  pub session_id : Text
  pub lock_cmd : Text
  pub before_sleep_cmd : Text
  pub uid : ℕ
  pub log_level : LogLevel

-- The two implementations of `IIdleMonitor`.
pub data Monitor : Type 0 where
  wayland : WaylandIdle → Monitor
  input : InputIdle → Monitor

-- What the agent does to the outside: a line handed to `write_line`, a descriptor of the daemon
-- watched, no longer watched or closed, a command started, or run to its end.
pub data Deed : Type 0 where
  wrote : ℕ → Text → Deed
  watched unwatched closed : ℕ → Deed
  started finished : Text → Deed

-- `daemon_fd` is `none` for -1, `mpris` where the monitor is unavailable: its callbacks are then unset.
pub record Agent : Type 0 where
  pub opts : AgentOptions
  pub daemon_fd : Option ℕ
  pub buf : Text
  pub idle : Option Monitor
  pub mpris : Option Mpris
  pub deeds : List Deed

unfoldable pub emit : Agent → Deed → Agent
emit a x = record a { deeds = a.deeds ++ x ∷ [] }

-- `send`: without a connection it does nothing.
unfoldable pub send_to : Agent → Option ℕ → Text → Agent
unfolding emit
send_to a none line = a
send_to a (some fd) line = emit a (wrote fd line)

unfoldable pub send : Agent → Text → Agent
unfolding send_to
send a line = send_to a a.daemon_fd line

unfoldable pub send_all : Agent → List Text → Agent
unfolding send
send_all a [] = a
send_all a (line ∷ lines) = send_all (send a line) lines

-- A command is run in a child, if `fork` succeeds.
unfoldable pub run_lock_cmd : Bool → Agent → Agent
unfolding emit
run_lock_cmd forks a =
    if is_empty a.opts.lock_cmd then a else if forks then emit a (started a.opts.lock_cmd) else a

-- It waits for the end of the command.
unfoldable pub run_before_sleep_cmd : Bool → Agent → Agent
unfolding emit
run_before_sleep_cmd forks a =
    if is_empty a.opts.before_sleep_cmd
    then a
    else if forks
    then emit a (finished a.opts.before_sleep_cmd)
    else a

-- What a line meets: whether `fork` succeeds; for a new idle monitor the compositor, whether the
-- epoll and the timer of the other one can be made, and the clock; for new timeouts the answers.
pub record Surroundings : Type 0 where
  pub forks : Bool
  pub compositor : Compositor
  pub epoll_ok : Bool
  pub timer_ok : Bool
  pub now : ℕ
  pub answers : Answers

-- The monitor for the input devices, where that of Wayland is unavailable.
input_monitor : Option InputIdle → Option Monitor
input_monitor none = none
input_monitor (some m) = some (input m)

-- The monitor that `setup_idle_monitor` chooses, in a build with Wayland.
unfoldable pub choose_monitor : Surroundings → ℤ → ℤ → Option Monitor
unfolding input_monitor
choose_monitor s dim_ms sleep_ms =
    let (made, wl) = Wayland.init s.compositor dim_ms sleep_ms in
    if made
    then some (wayland wl)
    else input_monitor (Idle.init s.epoll_ok s.timer_ok s.now dim_ms sleep_ms)

-- `setup_idle_monitor`: the old monitor goes, whether there is a new one or not.
unfoldable pub setup_idle_monitor : Surroundings → Agent → ℤ → ℤ → Agent
unfolding choose_monitor
setup_idle_monitor s a dim_ms sleep_ms = record a { idle = choose_monitor s dim_ms sleep_ms }

-- `IIdleMonitor::set_timeouts`.
unfoldable pub retime : Surroundings → Monitor → ℤ → ℤ → Monitor
retime s (wayland m) dim_ms sleep_ms = wayland (Wayland.set_timeouts m dim_ms sleep_ms s.answers)
retime s (input m) dim_ms sleep_ms = input (Idle.set_timeouts m s.now dim_ms sleep_ms)

-- The timeouts go to the monitor that is there, or a new one is made.
unfoldable pub use_timeouts : Surroundings → Agent → Option Monitor → ℤ → ℤ → Agent
unfolding setup_idle_monitor retime
use_timeouts s a none dim_ms sleep_ms = setup_idle_monitor s a dim_ms sleep_ms
use_timeouts s a (some m) dim_ms sleep_ms = record a { idle = some (retime s m dim_ms sleep_ms) }

-- `(int)n * 1000`.
unfoldable pub milliseconds : ℤ → ℤ
milliseconds n = to_int (to_int n *ℤ pos 1000)

module _ (fl : Floats) where
  -- What a message that could be read does.
  unfoldable pub on_message : Surroundings → Agent → Value → Agent
  unfolding milliseconds use_timeouts run_lock_cmd run_before_sleep_cmd send
  on_message s a msg =
      let type = msg_type msg in
      if text_eq type t_config
      then use_timeouts s a a.idle (milliseconds (num fl msg (codes "dim_timeout") (pos 0)))
          (milliseconds (num fl msg (codes "sleep_timeout") (pos 0)))
      else if text_eq type t_lock
      then run_lock_cmd s.forks a
      else if text_eq type t_pre_sleep
      then send (run_before_sleep_cmd s.forks a) (encode_ack fl)
      else a

  -- `on_daemon_line`: a line that does not parse is dropped.
  unfoldable pub on_daemon_line : Surroundings → Agent → Text → Agent
  unfolding on_message
  on_daemon_line s a line = elim (decode fl line) [
    | ok msg ↦ on_message s a msg
    | err e ↦ a
    | out_of_fuel ↦ a
  ]

  -- The line that each callback of the idle monitor sends, and each of the media player monitor.
  unfoldable pub idle_line : IdleCall → Text
  idle_line dims = encode_idle_dim fl
  idle_line sleeps = encode_idle_sleep fl
  idle_line active = encode_active fl

  unfoldable pub mpris_line : Call → Text
  mpris_line (inhibit r) = encode_inhibit fl r
  mpris_line (uninhibit r) = encode_uninhibit fl r
