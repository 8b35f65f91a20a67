-- ===== src/Tests/Together.antt =====
-- The laws of the system of an agent and the daemon at a concrete run: a player starts, the agent's
-- idle monitor reports, and the daemon takes the first of the two lines.
use draind.Base.{
  ℕ, ◌≡◌, Bool, true, false, none, some, Option, List, [], ◌∷◌, ◌++◌, All, left, Text, codes, pos,
}
use draind.Base.Maps.{insert}
use draind.Idle.{InputIdle, fires}
use draind.Mpris
use draind.Mpris.Board.{nobody, hears}
use draind.Mpris.{Mpris, Bus, Signal, name_owner_changed, inhibit, inhibit_reason}
use draind.Agent.{Agent, input, mpris_line}
use draind.Agent.Running.{wakes, poll_idle, poll_mpris}
use draind.Daemon.State.{Daemon, AgentState, Output, send_config, send}
use draind.Socket.{bytes}
use draind.Daemon.Loop.{loop, connects, ready}
use draind.Daemon.Moves.{Fits}
use draind.Daemon.Speech.{spoken, loop_speaks}
use draind.Daemon.Lines.{reasons_after}
use draind.Protocol.{encode_ack, encode_hello}
use draind.System.{System, Run, acted, idle_agent}
use draind.Tests.Json.{no_floats}
use draind.Tests.Agents.{calm, env}
use draind.Tests.Desk.{options}

abbrev user : AgentState
user = record { session_id = codes "2"; uid = 1000; inhibits = [] }

abbrev empty_room : Daemon
empty_room = record calm { agents = [] }

abbrev greeted : Daemon
greeted = send_config no_floats (record empty_room { agents = insert 7 user empty_room.agents }) 7

abbrev hello : Text
hello = encode_hello no_floats (codes "2") 1000 ++ 10 ∷ []

-- An idle monitor that waits for a second, and a media player monitor that knows nobody.
abbrev pub waiting_agent : Agent
waiting_agent = record {
  opts = options;
  daemon_fd = some 4;
  buf = [];
  idle = some (
      input (record {
        dim_ms = pos 1000;
        sleep_ms = pos 0;
        dimmed = false;
        sleeping = false;
        last_event_ms = 0;
        timer = some 1000;
        calls = [];
      }));
  mpris = some Mpris.initial;
  deeds = [];
}

abbrev at_first : System
at_first = record { agent = waiting_agent; players = nobody; daemon = greeted; in_flight = [] }

abbrev silent_bus : Bus
silent_bus = record {
  opens = true;
  matches_owners = true;
  matches_properties = true;
  names = some [];
}

abbrev player : List Signal
player =
    name_owner_changed (some (codes "org.mpris.MediaPlayer2.mpv")) (some (codes ":1.7"))
      (some (codes "Playing"))
    ∷ []

abbrev playing : System
playing =
    acted at_first (hears nobody player)
      (poll_mpris no_floats (idle_agent waiting_agent) waiting_agent.mpris player)

abbrev away : System
away =
    acted playing playing.players
      (poll_idle no_floats (idle_agent playing.agent) playing.agent.idle (wakes (fires 1000 ∷ [])))

abbrev inhibit_line : Text
inhibit_line = mpris_line no_floats (inhibit inhibit_reason)

-- The daemon with the reason.
abbrev told : Daemon
told =
    send
      (record greeted {
        agents =
            insert 7 (reasons_after no_floats env greeted 7 (inhibit inhibit_reason) user)
              greeted.agents;
      })
      7 (encode_ack no_floats)

loop_speaks_example :
    (xs : List Output) × ((left (
        loop no_floats empty_room ((env, connects 7) ∷ (env, ready 7 (bytes hello ∷ [])) ∷ []))).log
      ≡ empty_room.log ++ xs)
    × All (Fits (spoken no_floats)) xs
loop_speaks_example =
    loop_speaks no_floats (λ x. tt) empty_room
      ((env, connects 7) ∷ (env, ready 7 (bytes hello ∷ [])) ∷ [])
