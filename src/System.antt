-- ===== src/System.antt =====
-- An agent (src/agent/agent.cpp) and the daemon (src/daemon/daemon.cpp) that it is connected to, as
-- one system: each acts at any time, and the lines of the agent are in flight between them, in order.
pub mod Flight
pub mod Acts
pub mod Seen
pub mod Sync
pub mod Agreement
pub mod Dimming
pub mod Sleeping
use draind.Base.{
  ℕ, ◌<◌, ◌^◌, Bool, true, false, not, ◌≡◌, Option, some, List, [], ◌∷◌, ◌++◌, map, Text, ◌==◌,
  done,
}
use draind.Json.Value.{Floats}
use draind.Mpris.{Mpris, Bus, Signal, listed}
use draind.Mpris.Board.{Board, nobody, some_playing, hears, finds}
use draind.Protocol.{encode_hello}
use draind.Agent.{
  Agent, Deed, wrote, watched, unwatched, closed, started, finished, Surroundings, on_daemon_line,
}
use draind.Agent.Running.{IdleEvents, poll_idle, poll_mpris, start_mpris}
use draind.Daemon.State.{Daemon, Env}
use draind.Daemon.Loop.{Event, on_line, step}
use draind.Daemon.Moves.{Limits, only}
use draind.Daemon.Traces.{Allows}

-- The lines that the agent handed to `write_line`.
unfoldable pub lines_of : List Deed → List Text
lines_of [] = []
lines_of (wrote fd line ∷ deeds) = line ∷ lines_of deeds
lines_of (watched fd ∷ deeds) = lines_of deeds
lines_of (unwatched fd ∷ deeds) = lines_of deeds
lines_of (closed fd ∷ deeds) = lines_of deeds
lines_of (started cmd ∷ deeds) = lines_of deeds
lines_of (finished cmd ∷ deeds) = lines_of deeds

-- A media player of the agent's session is playing: the last thing that the bus has said of some
-- connection is that it is.
unfoldable pub is_playing : Board → Bool
unfolding some_playing
is_playing b = some_playing b.said

-- `players` is what the bus has said of the media players. It and the mark of each line in flight, which
-- says whether a player was playing when the agent wrote it, are seen by no program.
pub record System : Type 0 where
  pub agent : Agent
  pub players : Board
  pub daemon : Daemon
  pub in_flight : List (Bool × Text)

-- The agent with nothing done in this act.
abbrev pub idle_agent : Agent → Agent
idle_agent a = record a { deeds = [] }

-- What an act of the agent leaves.
abbrev pub acted : System → Board → Agent → System
acted s b a = record {
  agent = a;
  players = b;
  daemon = s.daemon;
  in_flight = s.in_flight ++ map (λ line. (is_playing b, line)) (lines_of a.deeds);
}

-- The limits of an event that is not about the agent's descriptor.
abbrev pub others : ℕ → Limits
others fd = only (λ j. not (j == fd))

-- The agent's connection is the descriptor `fd` of the daemon.
module _ (fl : Floats) (fd : ℕ) where
  -- The agent polls its media players or its idle monitor, or takes a line from the daemon,
  -- whatever line; the daemon takes the next line in flight, or an event that is about another
  -- client, a device or the sessions.
  pub data Step (s : System) : System → Type 0 where
    polls :
        (ms : List Signal)
        → Step s
            (acted s (hears s.players ms) (poll_mpris fl (idle_agent s.agent) s.agent.mpris ms))
    watches :
        (events : IdleEvents)
        → Step s (acted s s.players (poll_idle fl (idle_agent s.agent) s.agent.idle events))
    obeys :
        (around : Surroundings) (line : Text)
        → Step s (acted s s.players (on_daemon_line fl around (idle_agent s.agent) line))
    handles :
        (env : Env) (mark : Bool) (line : Text) (rest : List (Bool × Text)) (d : Daemon)
        → s.in_flight ≡ (mark, line) ∷ rest
        → on_line fl env s.daemon fd line ≡ done d
        → Step s (record { agent = s.agent; players = s.players; daemon = d; in_flight = rest })
    elsewhere :
        (env : Env) (event : Event) (d : Daemon)
        → Allows (others fd) event
        → step fl env s.daemon event ≡ done d
        → Step s
            (record { agent = s.agent; players = s.players; daemon = d; in_flight = s.in_flight })

  -- The system when the daemon has taken the agent's hello and nothing else is in flight; the bus
  -- said of no player that it was playing when the agent started.
  pub record IsConnected (s : System) : Type 0 where
    pub connection : ℕ
    pub connected : s.agent.daemon_fd ≡ some connection
    pub user : s.agent.opts.uid < 2 ^ 32
    pub bus : Bus
    pub monitor : Mpris
    pub starts : start_mpris bus ≡ some monitor
    pub monitors : s.agent.mpris ≡ some monitor
    pub found : s.players ≡ finds nobody (listed bus.names)
    pub silent : is_playing s.players ≡ false
    pub env : Env
    pub before : Daemon
    pub greets :
        on_line fl env before fd (encode_hello fl s.agent.opts.session_id s.agent.opts.uid)
        ≡ done s.daemon
    pub delivered : s.in_flight ≡ []

  pub data Run : System → Type 0 where
    connected : {s : System} → IsConnected s → Run s
    then_step : {s t : System} → Run s → Step s t → Run t
