-- ===== src/Daemon/Handlers.antt =====
-- The handlers of src/daemon/daemon.cpp for the messages of the agents and for the hardware events.
use draind.Base.{
  ℕ, true, false, ◌||◌, not, Option, none, some, [], Text, codes, is_empty, text_eq, pos, to_uint32,
  leb_ℤ, if◌then◌else◌, Outcome, done, throws,
}
use draind.Base.Maps.{lookup, insert, erase, set_insert, set_erase}
use draind.Json.Value.{Value, Floats, str, num}
use draind.Config.{Profile}
use draind.Power
use draind.HwEvents.{HwEvent, lid_close, lid_open, power_button, sleep_button}
use draind.Protocol.{encode_ack}
use draind.Daemon.State.{
  Daemon, AgentState, Env, send, epoll_del, is_active_agent, has_any_inhibit, profile, send_config,
  run_hw_action, do_suspend,
}

-- The agent with one more or one fewer reason.
unfoldable pub add_inhibit : AgentState → Text → AgentState
add_inhibit a reason = record a { inhibits = set_insert reason a.inhibits }

unfoldable pub drop_inhibit : AgentState → Text → AgentState
drop_inhibit a reason = record a { inhibits = set_erase reason a.inhibits }

-- `power.dim` and `m_dimmed = true`, which is not reached if the first throws.
unfoldable pub dim_by : Daemon → Option Profile → Outcome Daemon
dim_by d none = done d
dim_by d (some p) = elim (Power.dim d.power p) [
  | done w ↦ done (record d { power = w; dimmed = true })
  | throws e w ↦ throws e (record d { power = w })
]

unfoldable pub undim_by : Daemon → Option Profile → Outcome Daemon
undim_by d none = done d
undim_by d (some p) = elim (Power.undim d.power p) [
  | done w ↦ done (record d { power = w; dimmed = false })
  | throws e w ↦ throws e (record d { power = w })
]

-- The action that a profile gives to an event.
unfoldable pub action_of : HwEvent → Profile → Text
action_of lid_close p = p.lid_close_action
action_of lid_open p = []
action_of power_button p = p.power_button_action
action_of sleep_button p = p.sleep_button_action

unfoldable pub on_disconnect : Daemon → ℕ → Daemon
unfolding epoll_del
on_disconnect d fd = epoll_del (record d { agents = erase fd d.agents }) fd

unfoldable pub on_idle_dim : Daemon → ℕ → Outcome Daemon
unfolding dim_by
on_idle_dim d fd =
    if not (is_active_agent d fd)
    then done d
    else if has_any_inhibit d
    then done d
    else if d.dimmed
    then done d
    else dim_by d (profile d)

unfoldable pub on_active : Daemon → ℕ → Outcome Daemon
unfolding undim_by
on_active d fd =
    if not (is_active_agent d fd)
    then done d
    else if not d.dimmed
    then done d
    else undim_by d (profile d)

module _ (fl : Floats) where
  -- The agent that a hello describes.
  abbrev pub new_agent : Value → AgentState
  new_agent msg = record {
    session_id = str msg (codes "session_id") [];
    uid = to_uint32 (num fl msg (codes "uid") (pos 0));
    inhibits = [];
  }

  unfoldable pub on_hello : Daemon → ℕ → Value → Daemon
  unfolding send_config
  on_hello d fd msg = send_config fl (record d { agents = insert fd (new_agent msg) d.agents }) fd

  unfoldable pub suspend_by : Env → Daemon → Option Profile → Daemon
  suspend_by env d none = d
  suspend_by env d (some p) =
      if leb_ℤ p.sleep_timeout (pos 0) then d else do_suspend fl env (codes "suspend") d

  unfoldable pub on_idle_sleep : Env → Daemon → ℕ → Daemon
  unfolding suspend_by
  on_idle_sleep env d fd =
      if not (is_active_agent d fd)
      then d
      else if has_any_inhibit d
      then d
      else suspend_by env d (profile d)

  -- The change of the agent's reasons, and the ack.
  unfoldable pub change_agent : Daemon → ℕ → (AgentState → AgentState) → Option AgentState → Daemon
  unfolding send
  change_agent d fd f none = d
  change_agent d fd f (some a) =
      send (record d { agents = insert fd (f a) d.agents }) fd (encode_ack fl)

  unfoldable pub on_inhibit : Daemon → ℕ → Value → Daemon
  unfolding change_agent
  on_inhibit d fd msg =
      change_agent d fd (λ a. add_inhibit a (str msg (codes "reason") [])) (lookup fd d.agents)

  unfoldable pub on_uninhibit : Daemon → ℕ → Value → Daemon
  unfolding change_agent
  on_uninhibit d fd msg =
      change_agent d fd (λ a. drop_inhibit a (str msg (codes "reason") [])) (lookup fd d.agents)

  unfoldable pub act : Env → Daemon → Text → Daemon
  act env d action =
      if is_empty action || text_eq action (codes "none")
      then d
      else if text_eq action (codes "suspend")
          || (text_eq action (codes "hibernate") || text_eq action (codes "hybrid-sleep"))
      then do_suspend fl env action d
      else run_hw_action d action

  -- The callback of the hardware monitor.
  unfoldable pub on_event : Env → Daemon → HwEvent → Daemon
  unfolding act action_of
  on_event env d e = elim (profile d) [ none ↦ d | some p ↦ act env d (action_of e p) ]
