-- ===== src/Daemon/Loop.antt =====
-- The dispatch of a line and the event loop of src/daemon/daemon.cpp, with the reading of a client
-- in src/daemon/server.cpp.
use draind.Base.{
  ℕ, Bool, Option, none, some, List, [], ◌∷◌, Text, is_empty, text_eq, if◌then◌else◌, ok, err,
  out_of_fuel, Outcome, done, throws,
}
use draind.Base.Maps.{lookup, insert}
use draind.Json.Value.{Value, Floats}
use draind.Socket.{ReadResult, feed}
use draind.Server.{Connection, emplace}
use draind.HwEvents.{HwEvent}
use draind.Protocol.{
  decode, msg_type, t_hello, t_ctl, t_idle_dim, t_idle_sleep, t_active, t_inhibit, t_uninhibit,
}
use draind.Session
use draind.Session.{SeatSignal}
use draind.Daemon.State.{Daemon, AgentState, Env, watched, emit, close_client, epoll_del}
use draind.Daemon.Handlers.{
  on_disconnect, on_hello, on_idle_dim, on_idle_sleep, on_active, on_inhibit, on_uninhibit,
  on_event,
}
use draind.Daemon.Control.{on_ctl}

-- What wakes the loop: signals of logind wait, a client connects, a client's
-- descriptor is ready, or a device reports an event.
pub data Event : Type 0 where
  logind : List SeatSignal → Event
  connects : ℕ → Event
  ready : ℕ → List ReadResult → Event
  hardware : HwEvent → Event

module _ (fl : Floats) where
  -- The messages that only an agent may send.
  unfoldable pub agent_message :
      Env → Daemon → ℕ → Value → Text → Option AgentState → Outcome Daemon
  agent_message env d fd msg type none = done d
  agent_message env d fd msg type (some a) =
      if text_eq type t_idle_dim
      then on_idle_dim d fd
      else if text_eq type t_idle_sleep
      then done (on_idle_sleep fl env d fd)
      else if text_eq type t_active
      then on_active d fd
      else if text_eq type t_inhibit
      then done (on_inhibit fl d fd msg)
      else if text_eq type t_uninhibit
      then done (on_uninhibit fl d fd msg)
      else done d

  unfoldable pub dispatch : Env → Daemon → ℕ → Value → Outcome Daemon
  unfolding agent_message
  dispatch env d fd msg =
      let type = msg_type msg in
      if text_eq type t_hello
      then done (on_hello fl d fd msg)
      else if text_eq type t_ctl
      then on_ctl fl env d fd msg
      else agent_message env d fd msg type (lookup fd d.agents)

  -- A line that does not parse closes the connection.
  unfoldable pub reject : Daemon → ℕ → Daemon
  unfolding close_client epoll_del
  reject d fd = epoll_del (close_client d fd) fd

  unfoldable pub on_line : Env → Daemon → ℕ → Text → Outcome Daemon
  unfolding dispatch reject
  on_line env d fd line = elim (decode fl line) [
    | ok msg ↦ dispatch env d fd msg
    | err e ↦ done (reject d fd)
    | out_of_fuel ↦ done (reject d fd)
  ]

  -- The loop over the lines that were read; an empty one is skipped.
  unfoldable pub on_lines : Env → Daemon → ℕ → List Text → Outcome Daemon
  on_lines env d fd [] = done d
  on_lines env d fd (line ∷ lines) =
      elim (if is_empty line then done d else on_line env d fd line) [
        | done d' ↦ on_lines env d' fd lines
        | throws e d' ↦ throws e d'
      ]

  -- The end of `handle_client`: a stream that ended or failed is dropped.
  unfoldable pub finish_client : ℕ → Bool → Outcome Daemon → Outcome Daemon
  unfolding on_disconnect close_client
  finish_client fd alive (throws e d) = throws e d
  finish_client fd alive (done d) =
      if alive then done d else done (close_client (on_disconnect d fd) fd)

  unfoldable pub serve : Env → Daemon → ℕ → List ReadResult → Option Connection → Outcome Daemon
  unfolding on_lines finish_client
  serve env d fd rs none = done d
  serve env d fd rs (some c) =
      let (alive, lines, rest) = feed c.buf rs in
      let d' = record d { conns = insert fd (record c { buf = rest }) d.conns } in
      finish_client fd alive (on_lines env d' fd lines)

  -- `Server::handle_client`.
  unfoldable pub handle_client : Env → Daemon → ℕ → List ReadResult → Outcome Daemon
  unfolding serve
  handle_client env d fd rs = serve env d fd rs (lookup fd d.conns)

  -- `Server::accept_client` and the watch on the new descriptor.
  unfoldable pub accept_client : Daemon → ℕ → Daemon
  unfolding emit emplace
  accept_client d fd = emit (record d { conns = emplace fd d.conns }) (watched fd)

  -- One event of the loop.
  unfoldable pub step : Env → Daemon → Event → Outcome Daemon
  unfolding handle_client accept_client on_event
  step env d (logind ms) = done (record d { active_session = Session.poll d.active_session ms })
  step env d (connects fd) = done (accept_client d fd)
  step env d (ready fd rs) = handle_client env d fd rs
  step env d (hardware e) = done (on_event fl env d e)

  -- The loop until the events end, or something is thrown, which ends the program.
  unfoldable pub loop : Daemon → List (Env × Event) → Outcome Daemon
  unfolding step
  loop d [] = done d
  loop d ((env, e) ∷ events) = elim (step env d e) [
    | done d' ↦ loop d' events
    | throws t d' ↦ throws t d'
  ]
