-- ===== src/Daemon/Switching.antt =====
-- The signals of logind (src/daemon/session_tracker.cpp) and the agents that they let act in
-- src/daemon/daemon.cpp.
use draind.Base.{ℕ, ◌≡◌, refl, not, ◌&&◌, some, List, is_empty, text_eq, done}
use draind.Base.Maps.{lookup}
use draind.Json.Value.{Floats}
use draind.Session
use draind.Session.{SeatSignal, is_active}
use draind.Session.Follows.{last_or, named, poll-last_or}
use draind.Daemon.State.{Daemon, AgentState, Env, is_active_agent, agent_is_active}
use draind.Daemon.Loop.{step, logind}

-- After signals of logind an agent may act exactly when its session has a name, and it is the last
-- one that a signal of the seat named, or that of before where none did; nothing else has changed.
pub step-logind :
    (fl : Floats) (env : Env) (d : Daemon) (ms : List SeatSignal) (fd : ℕ) (a : AgentState)
    → lookup fd d.agents ≡ some a
    → (d' : Daemon) × (step fl env d (logind ms) ≡ done d')
      × (is_active_agent d' fd ≡ (
          not (is_empty a.session_id)
          && text_eq a.session_id (last_or d.active_session (named ms))))
      × (record d' { active_session = d.active_session } ≡ d)
unfolding step is_active_agent agent_is_active is_active
step-logind fl env d ms fd a e = (
  record d { active_session = Session.poll d.active_session ms },
  refl,
  rw (e, poll-last_or d.active_session ms) refl,
  refl,
)
