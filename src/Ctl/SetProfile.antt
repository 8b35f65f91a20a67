-- ===== src/Ctl/SetProfile.antt =====
-- `draindctl set-profile` (src/ctl/main.cpp) over the daemon (src/daemon/daemon.cpp) to the idle
-- monitors of the agents (src/agent/agent.cpp).
use draind.Base.{
  ℕ, ◌≡◌, refl, ap, ◌∙◌, true, some, List, [], ◌∷◌, ◌++◌, map, Text, codes, text_eq, text_ltb, done,
}
use draind.Json.Value.{Floats, assign, insert, get_object, flag, index, find, has, get_bool}
use draind.Json.OneLine.{IsLine}
use draind.Socket.Lines.{concat}
use draind.Config
use draind.Config.{Profile}
use draind.Power
use draind.Manager
use draind.Manager.{ConfigManager, active_profile, persist_active}
use draind.Manager.Persist.{persist_active-keeps}
use draind.Protocol.{encode_ctl_reply, encode_config}
use draind.Daemon.State.{
  Daemon, AgentState, Agents, Output, sent, Env, send, send_each, fds_of, broadcast_config,
  config_line, profile, with_power,
}
use draind.Daemon.Control.{on_ctl, reply_ok, reply, set_profile, on_change, apply_by}
use draind.Daemon.Loop.{on_line}
use draind.Agent.{Agent, Monitor, Surroundings, on_daemon_line}
use draind.Agent.Orders.{IsSeconds, in_ms}
use draind.Agent.Retiming.{GoesBy, on_daemon_line-GoesBy}
use draind.Ctl.{Command, chunk, on_reply, exchange, request, line, print_reply}
use draind.Ctl.Exchange.{exchange-reply}
use draind.Ctl.Listing.{on_line-request}

-- The same line to each of the agents.
abbrev pub each_sent : Text → Agents → List Output
each_sent line agents = map (λ (x : ℕ × AgentState). sent x.0 line) agents

send_each-sent :
    (line : Text) (agents : Agents) → send_each line (fds_of agents) ≡ each_sent line agents
unfolding send_each fds_of
send_each-sent line [] = refl
send_each-sent line ((fd, a) ∷ agents) = ap (λ xs. sent fd line ∷ xs) (send_each-sent line agents)

module _ (fl : Floats) where
  -- The manager with another profile in force.
  abbrev pub switched : ConfigManager → Text → ConfigManager
  switched m name = persist_active fl (record m { active = name })

  set_active-found :
      (m : ConfigManager) (name : Text) (p : Profile)
      → Config.find m.config name ≡ some p
      → Manager.set_active fl m name ≡ some (switched m name)
  unfolding Manager.set_active
  set_active-found m name p h = rw (Manager.set_active, h) refl

  pub switched-profile :
      (d : Daemon) (name : Text) (p : Profile)
      → Config.find d.manager.config name ≡ some p
      → profile (record d { manager = switched d.manager name }) ≡ some p
  unfolding profile active_profile
  switched-profile d name p h =
      let (active, config) = persist_active-keeps fl (record d.manager { active = name }) in
      rw (config, active) h

  on_change-done :
      (d : Daemon) (p : Profile) (w : Power.Power)
      → profile d ≡ some p
      → Power.apply d.power p ≡ done w
      → on_change fl d
        ≡ done (record d {
          power = w;
          log = d.log ++ each_sent (encode_config fl p.dim_timeout p.sleep_timeout) d.agents;
        })
  unfolding on_change apply_by with_power broadcast_config config_line profile encode_config
  on_change-done d p w h k =
      let applied : apply_by d (profile d) ≡ done (record d { power = w }) =
        rw (h, apply_by, k) refl in
      rw (on_change, applied)
        (ap (λ line. done (record d { power = w; log = d.log ++ send_each line (fds_of d.agents) }))
            (rw (config_line, h) refl)
          ∙ ap (λ xs. done (record d { power = w; log = d.log ++ xs }))
              (send_each-sent (encode_config fl p.dim_timeout p.sleep_timeout) d.agents))

module _ (fl : Floats) (printable : (x : ℕ) → IsLine (fl.print_g x)) (env : Env) (d : Daemon)
    (fd : ℕ) (socket error : Text) where
  -- The daemon that has carried out set-profile and answered.
  abbrev pub switched_daemon : Text → Profile → Power.Power → Daemon
  switched_daemon name p w =
      send
        (record d {
          manager = switched fl d.manager name;
          power = w;
          log = d.log ++ each_sent (encode_config fl p.dim_timeout p.sleep_timeout) d.agents;
        })
        fd (encode_ctl_reply fl (reply_ok true))

  pub on_line-set_profile :
      (name : Text) (p : Profile) (w : Power.Power)
      → Config.find d.manager.config name ≡ some p
      → Power.apply d.power p ≡ done w
      → on_line fl env d fd (request fl (Command.set_profile name))
        ≡ done (switched_daemon name p w)
  unfolding request on_ctl reply set_profile text_eq
  on_line-set_profile name p w h k =
      let (v, e, c, n) =
        on_line-request fl printable env d fd socket error (codes "set_profile") name in
      let changed =
        on_change-done fl (record d { manager = switched fl d.manager name }) p w
          (switched-profile fl d name p h) k in
      e ∙ rw (c, n, set_active-found fl d.manager name p h, set_profile, changed) refl

  ok_printed :
      (name : Text) (cs : List Text)
      → concat cs ≡ encode_ctl_reply fl (reply_ok true) ++ 10 ∷ []
      → exchange fl socket (Command.set_profile name) (some (map chunk cs)) error
        ≡ record { code = 0; out = line (codes "ok"); errors = [] }
  unfolding text_eq text_ltb assign insert get_object on_reply print_reply flag has index find
      get_bool
  ok_printed name cs e =
      exchange-reply fl printable socket error (Command.set_profile name) _ cs
        ((refl, tt), tt, (tt, tt, tt)) e

  -- Where the configuration names the profile and the backlight takes it: set-profile puts the profile in
  -- force, sends its timeouts to each agent and answers, all in this order; `draindctl`, however the
  -- answer is cut, says ok and exits with 0; and an agent with an idle monitor that reads its line, if the
  -- timeouts are in the range of `int` as milliseconds, has a monitor that goes by them: an input monitor
  -- has them, with its timer set to the first of them that is positive, and a Wayland monitor has asked the
  -- compositor for the notifications that they want, where it is not refused.
  pub set_profile_reaches_agents :
      (name : Text) (p : Profile) (w : Power.Power) (cs : List Text) (s : Surroundings) (a : Agent)
      (m : Monitor)
      → Config.find d.manager.config name ≡ some p
      → Power.apply d.power p ≡ done w
      → concat cs ≡ encode_ctl_reply fl (reply_ok true) ++ 10 ∷ []
      → IsSeconds p.dim_timeout
      → IsSeconds p.sleep_timeout
      → a.idle ≡ some m
      → (on_line fl env d fd (request fl (Command.set_profile name))
          ≡ done (switched_daemon name p w))
        × (profile (switched_daemon name p w) ≡ some p)
        × (exchange fl socket (Command.set_profile name) (some (map chunk cs)) error
            ≡ record { code = 0; out = line (codes "ok"); errors = [] })
        × (m' : Monitor) × (on_daemon_line fl s a (encode_config fl p.dim_timeout p.sleep_timeout)
            ≡ record a { idle = some m' })
        × GoesBy s (in_ms p.dim_timeout) (in_ms p.sleep_timeout) m'
  unfolding send profile
  set_profile_reaches_agents name p w cs s a m h k e x y z =
      let (m', reads, goes) = on_daemon_line-GoesBy fl s a m p.dim_timeout p.sleep_timeout z x y in
      (
        on_line-set_profile name p w h k,
        switched-profile fl d name p h,
        ok_printed name cs e,
        m',
        reads,
        goes,
      )
