-- ===== src/Agent/Running.antt =====
-- `run`, the connection and the loop of src/agent/agent.cpp.
use draind.Base.{
  ℕ, Bool, true, false, Option, none, some, List, [], ◌∷◌, map, Text, is_empty, if◌then◌else◌,
}
use draind.Json.Value.{Floats}
use draind.Socket.{ReadResult, feed}
use draind.Idle
use draind.Idle.{IdleCall}
use draind.Wayland
use draind.Mpris
use draind.Mpris.{Mpris, Bus, Signal, Call}
use draind.Protocol.{encode_hello}
use draind.Agent.{
  Agent, AgentOptions, Monitor, wayland, input, Surroundings, watched, unwatched, closed, emit,
  send, on_daemon_line, idle_line, mpris_line, send_all,
}

-- What `connect_unix` gives: nothing, a connection, or a connection while a signal asks the agent to
-- end. Where the list ends, such a signal comes before the next attempt.
pub data Attempt : Type 0 where
  refused : Attempt
  accepted accepted_late : ℕ → Attempt

-- What the idle monitor's descriptor brings.
pub data IdleEvents : Type 0 where
  notices : List Wayland.Notice → IdleEvents
  wakes : List Idle.Wake → IdleEvents

-- A descriptor that `epoll_wait` reports: the daemon's, with what the reads give and the attempts
-- to connect again that may follow, or the idle monitor's. Any other was polled before.
pub data Ready : Type 0 where
  daemon : List ReadResult → List Attempt → Ready
  idle : IdleEvents → Ready
  other : Ready

-- What one lap of the loop meets.
pub record Lap : Type 0 where
  pub signals : List Signal
  pub ready : List Ready
  pub around : Surroundings

-- A monitor that has made its calls, and the calls.
unfoldable pub poll_monitor : Monitor → IdleEvents → Monitor × List IdleCall
poll_monitor (wayland m) (notices ns) =
    let m' = Wayland.poll (record m { calls = [] }) ns in (wayland m', m'.calls)
poll_monitor (wayland m) (wakes ws) = (wayland m, [])
poll_monitor (input m) (wakes ws) =
    let m' = Idle.poll (record m { calls = [] }) ws in (input m', m'.calls)
poll_monitor (input m) (notices ns) = (input m, [])

-- The agent before `run`.
abbrev pub initial : AgentOptions → Agent
initial opts = record {
  opts = opts;
  daemon_fd = none;
  buf = [];
  idle = none;
  mpris = none;
  deeds = [];
}

-- The monitor of the media players. Its callbacks are set when its `init` has returned, so the calls of
-- the scan go nowhere. Where `init` fails they stay unset: `none`.
unfoldable pub start_mpris : Bus → Option Mpris
start_mpris bus = elim (Mpris.init bus) [ none ↦ none | some m ↦ some (record m { calls = [] }) ]

module _ (fl : Floats) where
  unfoldable pub connect_to_daemon : Agent → List Attempt → Agent
  unfolding emit send
  connect_to_daemon a [] = a
  connect_to_daemon a (refused ∷ attempts) = connect_to_daemon a attempts
  connect_to_daemon a (accepted fd ∷ attempts) =
      send (emit (record a { daemon_fd = some fd }) (watched fd))
        (encode_hello fl a.opts.session_id a.opts.uid)
  connect_to_daemon a (accepted_late fd ∷ attempts) = record a { daemon_fd = some fd }

  -- `on_daemon_disconnect` on the descriptor of the connection.
  unfoldable pub on_daemon_disconnect : Agent → ℕ → List Attempt → Agent
  unfolding connect_to_daemon emit
  on_daemon_disconnect a fd attempts =
      connect_to_daemon
        (record (emit (emit a (unwatched fd)) (closed fd)) { daemon_fd = none; buf = [] }) attempts

  unfoldable pub on_daemon_lines : Surroundings → Agent → List Text → Agent
  on_daemon_lines s a [] = a
  on_daemon_lines s a (line ∷ lines) =
      on_daemon_lines s (if is_empty line then a else on_daemon_line fl s a line) lines

  -- The daemon's descriptor: whether the loop goes on, and the agent.
  unfoldable pub read_daemon :
      Surroundings → Agent → Option ℕ → List ReadResult → List Attempt → Bool × Agent
  unfolding on_daemon_lines on_daemon_disconnect
  read_daemon s a none rs attempts = (true, a)
  read_daemon s a (some fd) rs attempts =
      let (alive, lines, rest) = feed a.buf rs in
      let a' = record a { buf = rest } in
      if alive
      then (true, on_daemon_lines s a' lines)
      else (false, on_daemon_disconnect a' fd attempts)

  unfoldable pub poll_idle : Agent → Option Monitor → IdleEvents → Agent
  unfolding poll_monitor
  poll_idle a none events = a
  poll_idle a (some m) events =
      let (m', calls) = poll_monitor m events in
      send_all (record a { idle = some m' }) (map (idle_line fl) calls)

  -- `m_impl->mpris.poll()`.
  unfoldable pub poll_mpris : Agent → Option Mpris → List Signal → Agent
  poll_mpris a none signals = a
  poll_mpris a (some m) signals =
      let m' = Mpris.poll (record m { calls = [] }) signals in
      send_all (record a { mpris = some m' }) (map (mpris_line fl) m'.calls)

  -- The descriptors of a lap, up to the one at which the loop returns.
  unfoldable pub on_ready : Surroundings → Agent → List Ready → Bool × Agent
  unfolding read_daemon poll_idle
  on_ready s a [] = (true, a)
  on_ready s a (daemon rs attempts ∷ more) =
      let (goes_on, a') = read_daemon s a a.daemon_fd rs attempts in
      let rest = on_ready s a' more in if goes_on then rest else (false, a')
  on_ready s a (idle events ∷ more) = on_ready s (poll_idle a a.idle events) more
  on_ready s a (other ∷ more) = on_ready s a more

  -- `loop`: the laps that are left when it returns, and the agent. A list that ends is a signal that
  -- ends it.
  unfoldable pub loop : Agent → List Lap → List Lap × Agent
  unfolding on_ready poll_mpris
  loop a [] = ([], a)
  loop a (lap ∷ laps) =
      let (goes_on, a') = on_ready lap.around (poll_mpris a a.mpris lap.signals) lap.ready in
      let rest = loop a' laps in if goes_on then rest else (laps, a')

  -- `run`; its result is 0.
  unfoldable pub run : AgentOptions → List Attempt → Bus → List Lap → List Lap × Agent
  unfolding loop connect_to_daemon start_mpris
  run opts attempts bus laps =
      loop (record (connect_to_daemon (initial opts) attempts) { mpris = start_mpris bus }) laps
