-- ===== src/Daemon/State.antt =====
-- The state of src/daemon/daemon.cpp, and the helpers that its handlers share.
use draind.Base.{
  ℕ, Bool, true, false, Option, none, some, List, [], ◌∷◌, ◌++◌, Text, is_empty, pos, if◌then◌else◌,
  Outcome, done, throws,
}
use draind.Base.Maps.{lookup, erase}
use draind.Json.Value.{Floats}
use draind.Config.{Profile}
use draind.Power.{Power}
use draind.Battery.{BatteryInfo}
use draind.Server.{Connections, Round, agent_fds, written_fds, wait_acks}
use draind.Manager.{ConfigManager, active_profile}
use draind.Session.{is_active}
use draind.HwEvents.{command_for}
use draind.Protocol.{encode_config, encode_lock, encode_pre_sleep}

-- `inhibits` is a set, in the order of its elements.
pub record AgentState : Type 0 where
  pub session_id : Text
  pub uid : ℕ
  pub inhibits : List Text

abbrev pub Agents : Type 0
Agents = List (ℕ × AgentState)

-- What the daemon does to the outside: a line handed to `write_line`, a descriptor closed, watched
-- or no longer watched, a command run, and the end of a wait with those that did not answer.
pub data Output : Type 0 where
  sent : ℕ → Text → Output
  closed watched unwatched : ℕ → Output
  ran : Text → Output
  waited : List ℕ → Output

-- The entries of `agents` stand in the order in which the program walks through its hash map.
pub record Daemon : Type 0 where
  pub manager : ConfigManager
  pub power : Power
  pub active_session : Text
  pub conns : Connections
  pub agents : Agents
  pub dimmed : Bool
  pub log : List Output

-- What the kernel answers during one handler: to which descriptors a line can be written, the
-- rounds of a wait; and what `battery::read` returns.
pub record Env : Type 0 where
  pub battery : BatteryInfo
  pub line_ok : ℕ → Bool
  pub rounds : List Round

unfoldable pub emit : Daemon → Output → Daemon
emit d o = record d { log = d.log ++ o ∷ [] }

unfoldable pub send : Daemon → ℕ → Text → Daemon
unfolding emit
send d fd line = emit d (sent fd line)

-- `Server::close_client`.
unfoldable pub close_client : Daemon → ℕ → Daemon
unfolding emit
close_client d fd = emit (record d { conns = erase fd d.conns }) (closed fd)

unfoldable pub epoll_del : Daemon → ℕ → Daemon
unfolding emit
epoll_del d fd = emit d (unwatched fd)

unfoldable pub agent_is_active : Text → Option AgentState → Bool
unfolding is_active
agent_is_active active none = false
agent_is_active active (some a) = is_active active a.session_id

unfoldable pub is_active_agent : Daemon → ℕ → Bool
unfolding agent_is_active
is_active_agent d fd = agent_is_active d.active_session (lookup fd d.agents)

-- The loop of `has_any_inhibit`.
unfoldable pub any_inhibit : Agents → Bool
any_inhibit [] = false
any_inhibit ((fd, a) ∷ rest) = if is_empty a.inhibits then any_inhibit rest else true

unfoldable pub has_any_inhibit : Daemon → Bool
has_any_inhibit d = any_inhibit d.agents

-- `m_impl->config.active_profile()`.
unfoldable pub profile : Daemon → Option Profile
profile d = active_profile d.manager

-- The loop of `send_lock_to_active_agent` over the agents.
unfoldable pub find_active : Text → Agents → Option ℕ
find_active active [] = none
find_active active ((fd, a) ∷ rest) =
    if is_active active a.session_id then some fd else find_active active rest

-- The agent that gets the lock: that of the active session, or the only one there is.
unfoldable pub sole_agent : Agents → Option ℕ
sole_agent [] = none
sole_agent ((fd, a) ∷ []) = some fd
sole_agent (x ∷ y ∷ rest) = none

unfoldable pub lock_target : Text → Agents → Option ℕ
unfolding find_active sole_agent
lock_target active agents = elim (find_active active agents) [
  | none ↦ sole_agent agents
  | some fd ↦ some fd
]

-- `run_hw_action`.
unfoldable pub run_hw_action : Daemon → Text → Daemon
unfolding emit
run_hw_action d action = elim (command_for action) [ none ↦ d | some cmd ↦ emit d (ran cmd) ]

-- A change of the power state within a handler.
unfoldable pub with_power : Daemon → Outcome Power → Outcome Daemon
with_power d (done p) = done (record d { power = p })
with_power d (throws e p) = throws e (record d { power = p })

-- The loops that send one line to many descriptors.
unfoldable pub send_each : Text → List ℕ → List Output
send_each line [] = []
send_each line (fd ∷ fds) = sent fd line ∷ send_each line fds

unfoldable pub fds_of : Agents → List ℕ
fds_of [] = []
fds_of ((fd, a) ∷ rest) = fd ∷ fds_of rest

-- The end of `broadcast_and_wait_acks`: with no descriptor written to there is no wait.
unfoldable pub wait_outputs : List ℕ → List Round → List Output
wait_outputs [] rounds = []
wait_outputs (fd ∷ fds) rounds = waited (wait_acks (fd ∷ fds) rounds) ∷ []

module _ (fl : Floats) where
  timeouts_line : Option Profile → Text
  timeouts_line none = encode_config fl (pos 0) (pos 0)
  timeouts_line (some p) = encode_config fl p.dim_timeout p.sleep_timeout

  unfoldable pub config_line : Daemon → Text
  unfolding timeouts_line
  config_line d = timeouts_line (profile d)

  unfoldable pub send_config : Daemon → ℕ → Daemon
  unfolding send
  send_config d fd = send d fd (config_line d)

  unfoldable pub broadcast_config : Daemon → Daemon
  unfolding send_each fds_of
  broadcast_config d = record d { log = d.log ++ send_each (config_line d) (fds_of d.agents) }

  unfoldable pub send_lock_to_active_agent : Daemon → Daemon
  unfolding send
  send_lock_to_active_agent d = elim (lock_target d.active_session d.agents) [
    | none ↦ d
    | some fd ↦ send d fd (encode_lock fl)
  ]

  -- `Server::broadcast_and_wait_acks`.
  unfoldable pub broadcast_and_wait_acks : Env → Text → Daemon → Daemon
  unfolding wait_outputs send_each
  broadcast_and_wait_acks env line d =
      let fds = agent_fds d.conns in
      record d {
        log =
            d.log ++ (send_each line fds ++ wait_outputs (written_fds env.line_ok fds) env.rounds);
      }

  unfoldable pub do_suspend : Env → Text → Daemon → Daemon
  unfolding send_lock_to_active_agent broadcast_and_wait_acks run_hw_action
  do_suspend env action d =
      run_hw_action
        (broadcast_and_wait_acks env (encode_pre_sleep fl) (send_lock_to_active_agent d)) action
