-- ===== src/Daemon/Setup.antt =====
-- `setup` and `run` of src/daemon/daemon.cpp: the first state, and the exit code.
use draind.Base.{
  ℕ, Bool, false, Option, none, some, List, [], Text, codes, Result, ok, err, out_of_fuel, Outcome,
  done, throws, ◌>>=◌,
}
use draind.Json.Value.{Floats}
use draind.Config.{Config, load_config}
use draind.Power.{Power}
use draind.Session
use draind.Protocol
use draind.Server
use draind.Socket.Open.{SocketAnswers}
use draind.Session.{Logind, SessionTracker}
use draind.Manager.{ConfigManager}
use draind.Daemon.State.{Daemon, Env, profile}
use draind.Daemon.Control.{apply_by}
use draind.Daemon.Loop.{Event, loop}

-- What the program finds when it starts: the path of its configuration and the file there, whether
-- it can be written, the files of sysfs, what logind answers, and what the kernel answers
-- to the calls that open the socket.
pub record Boot : Type 0 where
  pub path : Text
  pub file : Option Text
  pub writable : Bool
  pub power : Power
  pub logind : Logind
  pub socket : SocketAnswers

unfoldable pub from_outcome : Outcome Daemon → Result Daemon
from_outcome (done d) = ok d
from_outcome (throws e d) = err e

module _ (fl : Floats) where
  -- The configuration manager that `ConfigManager(path)` makes of a configuration.
  abbrev pub new_manager : Boot → Config → ConfigManager
  new_manager b c = record {
    path = b.path;
    file = b.file;
    writable = b.writable;
    config = c;
    active = c.active_profile;
  }

  -- The state before the profile is applied.
  abbrev pub first_state : Boot → Config → Daemon
  first_state b c = record {
    manager = new_manager b c;
    power = b.power;
    active_session = (Session.init b.logind).1.active_session_id;
    conns = [];
    agents = [];
    dimmed = false;
    log = [];
  }

  -- The session tracker and the socket come after the configuration, the profile after these.
  unfoldable pub start : Boot → Config → Result Daemon
  unfolding from_outcome
  start b c = elim (Server.init b.socket Protocol.socket_path) [
    | none ↦ err (codes "cannot create server socket")
    | some fd ↦ from_outcome (apply_by (first_state b c) (profile (first_state b c)))
  ]

  unfoldable pub setup : Boot → Result Daemon
  unfolding start
  setup b = load_config fl b.path b.file >>= start b

  exit_code : Outcome Daemon → ℕ
  exit_code (done d) = 0
  exit_code (throws e d) = 1

  run_from : Result Daemon → List (Env × Event) → ℕ
  unfolding exit_code
  run_from (ok d) events = exit_code (loop fl d events)
  run_from (err e) events = 1
  run_from out_of_fuel events = 1

  -- `Daemon::run` until a signal ends the loop: what is thrown ends it with exit code 1.
  unfoldable pub run : Boot → List (Env × Event) → ℕ
  unfolding run_from
  run b events = run_from (setup b) events
