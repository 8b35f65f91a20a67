-- ===== src/Tests/Agents.antt =====
-- The laws of the daemon at concrete inputs.
use draind.Base.{
  ℕ, ◌≡◌, ◌≢◌, ◌↔◌, refl, Bool, true, false, not, ◌&&◌, ◌||◌, ◌==◌, List, [], ◌∷◌, ◌++◌, Text,
  codes, pos, none, some, Option, arith, text_eq, text_eq-ne, Outcome, done, throws, left, ok, err,
  err-ne-ok, sym, ◌∙◌, is_empty,
}
use draind.Base.Maps.{lookup, insert, Distinct}
use draind.Json.Value.{Value, null, string, assign}
use draind.Config.{Config, Profile}
use draind.Power
use draind.Power.{Power}
use draind.Socket.{ReadResult, bytes, eof, feed}
use draind.Server.{Connection}
use draind.Manager.{ConfigManager}
use draind.HwEvents.{lid_close}
use draind.Battery.{absent}
use draind.Protocol.{decode}
use draind.Session.{SeatSignal, session}
use draind.Daemon.State.{
  Daemon, AgentState, Env, is_active_agent, has_any_inhibit, profile, find_active, lock_target,
  do_suspend, run_hw_action, send_lock_to_active_agent, send_each, wait_outputs,
}
use draind.Daemon.Handlers.{on_idle_dim, on_idle_sleep}
use draind.Daemon.Loop.{Event, connects, ready, hardware, logind, on_line, handle_client}
use draind.Daemon.Inhibits.{
  holds, is_registered, holds-on_inhibit, holds-on_uninhibit, holds-on_hello, holds-on_disconnect,
}
use draind.Daemon.Policy.{inhibit_suppresses, on_idle_dim_sound, on_idle_dim_complete}
use draind.Daemon.Clients.{ended_stream_is_dropped, malformed_line_keeps_inhibits}
use draind.Tests.Json.{no_floats}
use draind.Tests.Machine.{home, laptop}

abbrev manager : ConfigManager
manager = record {
  path = codes "draind.json";
  file = none;
  writable = false;
  config = record { active_profile = codes "home"; profiles = home ∷ [] };
  active = codes "home";
}

abbrev pub env : Env
env = record {
  battery = record {
    present = false;
    name = [];
    percent = pos 0;
    status = absent;
    time_to_empty_min = none;
    time_to_full_min = none;
  };
  line_ok = λ fd. true;
  rounds = [];
}

-- An agent of the session 2 and one of the session 3, which holds the reason "mpris".
abbrev two_agents : List (ℕ × AgentState)
two_agents =
    (7, record { session_id = codes "2"; uid = 1000; inhibits = [] })
    ∷ (9, record { session_id = codes "3"; uid = 1001; inhibits = codes "mpris" ∷ [] })
    ∷ []

abbrev open_conn : Connection
open_conn = record { buf = codes "{"; is_agent = false; is_ctl = false }

-- The session 2 is active.
abbrev pub start : Daemon
start = record {
  manager = manager;
  power = laptop;
  active_session = codes "2";
  conns = [];
  agents = two_agents;
  dimmed = false;
  log = [];
}

abbrev connected : Daemon
connected = record start { conns = (7, open_conn) ∷ [] }

-- The same without the reason.
abbrev pub calm : Daemon
calm = record start {
  agents = (7, record { session_id = codes "2"; uid = 1000; inhibits = [] }) ∷ [];
}

abbrev pub mpris : Value
mpris = assign null (codes "reason") (string (codes "mpris"))

-- The signal of the seat that names a session.
abbrev pub switch_to : Text → SeatSignal
switch_to s = record {
  iface = some (codes "org.freedesktop.login1.Seat");
  entered = true;
  changed = (some (codes "ActiveSession"), session (some s)) ∷ [];
}

-- A client connects and sends a line, the lid is closed, and the session changes.
abbrev events : List (Env × Event)
events =
    (env, connects 5)
    ∷ (env, ready 5 (bytes (codes "{\"type\":\"hello\"}" ++ 10 ∷ []) ∷ []))
    ∷ (env, hardware lid_close)
    ∷ (env, logind (switch_to (codes "3") ∷ []))
    ∷ []

start-holds : holds start 9 (codes "mpris") ≡ true
unfolding holds draind.Daemon.Inhibits.reason_of lookup draind.Base.Maps.has_text text_eq
start-holds = refl

inhibit_suppresses_example :
    (on_idle_dim start 7 ≡ done start) × (on_idle_sleep no_floats env start 7 ≡ start)
inhibit_suppresses_example = inhibit_suppresses no_floats env start 7 9 (codes "mpris") start-holds

pub agent-lookup :
    lookup 9 start.agents
    ≡ some (record { session_id = codes "3"; uid = 1001; inhibits = codes "mpris" ∷ [] })
unfolding lookup
agent-lookup = refl

other-session : codes "3" ≢ codes "2"
unfolding text_eq
other-session = text_eq-ne (codes "3") (codes "2") refl

-- The dimming of the laptop.
abbrev pub dimmed_laptop : Power
dimmed_laptop = left (Power.dim laptop home)

pub calm-active : is_active_agent calm 7 ≡ true
unfolding is_active_agent lookup text_eq
calm-active = refl

pub calm-quiet : has_any_inhibit calm ≡ false
unfolding has_any_inhibit draind.Daemon.State.any_inhibit
calm-quiet = refl

pub calm-profile : profile calm ≡ some home
unfolding profile draind.Manager.active_profile draind.Config.find draind.Config.find_profile
    text_eq
calm-profile = refl

pub laptop-dims : Power.dim laptop home ≡ done dimmed_laptop
unfolding Power.dim Power.get_brightness_percent Power.find_backlight_path Power.first_backlight
    Power.read_file text_eq Power.stoi draind.Json.Number.is_digit Power.set_brightness_percent
laptop-dims = refl

calm-dims : on_idle_dim calm 7 ≡ done (record calm { power = dimmed_laptop; dimmed = true })
calm-dims =
    on_idle_dim_complete no_floats env calm 7 home dimmed_laptop calm-active calm-quiet refl
      calm-profile laptop-dims

on_idle_dim_sound_example :
    (is_active_agent calm 7 ≡ true)
    × (has_any_inhibit calm ≡ false)
    × ((p : Profile) × (profile calm ≡ some p) × (Power.dim calm.power p ≡ done dimmed_laptop))
on_idle_dim_sound_example =
    on_idle_dim_sound no_floats env calm 7 (record calm { power = dimmed_laptop; dimmed = true })
      calm-dims refl refl

connected-lookup : lookup 7 connected.conns ≡ some open_conn
unfolding lookup
connected-lookup = refl

ended : (feed open_conn.buf (bytes (codes "}") ∷ eof ∷ [])).0 ≡ false
unfolding feed
ended = refl

ended_stream_is_dropped_example :
    (e : Daemon) × (handle_client no_floats env connected 7 (bytes (codes "}") ∷ eof ∷ []) ≡ done e)
    × (lookup 7 e.conns ≡ none)
    × (lookup 7 e.agents ≡ none)
    × ((j : ℕ) (r : Text) → holds e j r ≡ (not (7 == j) && holds connected j r))
    × (e.power ≡ connected.power)
    × (e.dimmed ≡ connected.dimmed)
ended_stream_is_dropped_example =
    ended_stream_is_dropped no_floats env connected 7 (bytes (codes "}") ∷ eof ∷ []) open_conn
      connected-lookup ended

decode_garbage : decode no_floats (codes "x") ≡ err (codes "json: unexpected char: x")
unfolding decode draind.Json.Parser.parse draind.Json.Number.is_digit
decode_garbage = refl

undecodable : (msg : Value) → decode no_floats (codes "x") ≢ ok msg
undecodable msg e = err-ne-ok (sym decode_garbage ∙ e)

malformed_line_keeps_inhibits_example :
    (e : Daemon) × (on_line no_floats env start 9 (codes "x") ≡ done e)
    × ((rs : List ReadResult) → handle_client no_floats env e 9 rs ≡ done e)
    × ((j : ℕ) (r : Text) → holds e j r ≡ holds start j r)
malformed_line_keeps_inhibits_example =
    malformed_line_keeps_inhibits no_floats env start 9 (codes "x") undecodable
