-- ===== src/System/Sleeping.antt =====
-- From the clock of an agent's idle monitor over the daemon's suspend to the lock command of the agent.
use draind.Base.{
  ℕ, ◌+◌, ◌<◌, ◌≤◌, ◌^◌, int_half, true, false, ◌≡◌, refl, ap, ◌∙◌, some, [], ◌∷◌, ◌++◌, codes,
  is_empty, text_eq, done, leb_ℤ, pos,
}
use draind.Base.Maps.{lookup}
use draind.Json.Value.{Floats}
use draind.Config.{Profile}
use draind.Power
use draind.Idle
use draind.Idle.{InputIdle, dims, sleeps, touched, fires}
use draind.Idle.Timer.{with_times, dims_then_sleeps}
use draind.HwEvents.{command_for}
use draind.Protocol.{encode_idle_dim, encode_idle_sleep, encode_lock}
use draind.Daemon.Loop.{on_line}
use draind.Agent.{Surroundings, input, idle_line, started, on_daemon_line}
use draind.Agent.Running.{wakes, poll_idle}
use draind.Agent.Orders.{on_daemon_line-encode_lock}
use draind.Daemon.State.{
  Daemon, AgentState, Env, sent, ran, emit, send, is_active_agent, has_any_inhibit, profile,
  lock_target, run_hw_action, send_lock_to_active_agent, do_suspend,
}
use draind.Daemon.Handlers.{on_idle_sleep, suspend_by}
use draind.Daemon.Lines.{on_line-idle_line}
use draind.Daemon.Policy.{on_idle_dim_complete}
use draind.Daemon.Marks.{IsUnmarked, suspend_unmarked}
use draind.System.{System, acted, is_playing, idle_agent}
use draind.System.Acts.{poll_idle-Writes}
use draind.System.Dimming.{watches-in_flight}

-- The daemon that has sent the lock to a descriptor and suspended the machine.
abbrev pub suspended : Floats → ℕ → Daemon → Daemon
suspended fl target d = record d {
  log = (d.log ++ sent target (encode_lock fl) ∷ []) ++ ran (codes "systemctl suspend") ∷ [];
}

module _ (fl : Floats) (fd : ℕ) where
  -- A suspend that nothing stands against.
  on_idle_sleep_complete :
      (env : Env) (d : Daemon) (p : Profile) (target : ℕ)
      → is_active_agent d fd ≡ true
      → has_any_inhibit d ≡ false
      → profile d ≡ some p
      → leb_ℤ p.sleep_timeout (pos 0) ≡ false
      → IsUnmarked d.conns
      → lock_target d.active_session d.agents ≡ some target
      → on_idle_sleep fl env d fd ≡ suspended fl target d
  unfolding on_idle_sleep suspend_by send_lock_to_active_agent run_hw_action command_for text_eq
      send emit
  on_idle_sleep_complete env d p target a b c e u t =
      let locks : send_lock_to_active_agent fl d ≡ send d target (encode_lock fl) =
        rw (send_lock_to_active_agent, t) refl in
      let suspends : do_suspend fl env (codes "suspend") d ≡ suspended fl target d =
        suspend_unmarked fl env (codes "suspend") d u
        ∙ ap (λ x. run_hw_action x (codes "suspend")) locks in
      rw (a, b, c, suspend_by, e) suspends

  -- Both lines of a timer that fires twice.
  reports :
      (m : InputIdle) (s d l t u : ℕ)
      → m.dimmed ≡ false
      → m.sleeping ≡ false
      → 0 < d
      → d ≤ t
      → t < l
      → l ≤ u
      → s + u < 2 ^ 64
      → u < int_half
      → (Idle.poll
          (record (with_times m d l) { calls = [] })
          (touched s ∷ fires (s + t) ∷ fires (s + u) ∷ [])).calls
        ≡ dims ∷ sleeps ∷ []
  unfolding Idle.poll with_times
  reports m s d l t u a b h₁ h₂ h₃ h₄ h₅ h₆ =
      (dims_then_sleeps (record m { calls = [] }) s d l t u h₁ h₂ h₃ h₄ h₅ h₆).3 ∙ rw (a, b) refl

  -- An agent that is connected, has no line in flight, has an input monitor that has reported nothing since
  -- the last activity and has a lock command that it can start; a daemon that has this agent, in the active
  -- session and as the one that gets the lock, with no reason held by anybody, no connection marked as an
  -- agent, as none ever is, a screen that is not dimmed, a backlight that takes the dimming of the profile in
  -- force, and a profile that lets the machine sleep. An input of the user, and the firings of the timer
  -- when the time to dim has passed and when the longer time to sleep has, make the agent write the idle_dim
  -- line and then the idle_sleep line. The daemon dims the screen with the first; with the second it sends
  -- the lock to this agent and then suspends the machine; and the lock makes the agent start its lock
  -- command. The clock stays below 2 ^ 64 and the times within the range of `int`.
  pub idle_sleeps_machine :
      (s : System) (env : Env) (around : Surroundings) (n : ℕ) (m : InputIdle) (since d l t u : ℕ)
      (a : AgentState) (p : Profile) (w : Power.Power)
      → s.in_flight ≡ []
      → s.agent.daemon_fd ≡ some n
      → s.agent.idle ≡ some (input (with_times m d l))
      → m.dimmed ≡ false
      → m.sleeping ≡ false
      → 0 < d
      → d ≤ t
      → t < l
      → l ≤ u
      → since + u < 2 ^ 64
      → u < int_half
      → around.forks ≡ true
      → is_empty s.agent.opts.lock_cmd ≡ false
      → lookup fd s.daemon.agents ≡ some a
      → is_active_agent s.daemon fd ≡ true
      → lock_target s.daemon.active_session s.daemon.agents ≡ some fd
      → IsUnmarked s.daemon.conns
      → has_any_inhibit s.daemon ≡ false
      → s.daemon.dimmed ≡ false
      → profile s.daemon ≡ some p
      → leb_ℤ p.sleep_timeout (pos 0) ≡ false
      → Power.dim s.daemon.power p ≡ done w
      → let ticks = wakes (touched since ∷ fires (since + t) ∷ fires (since + u) ∷ []) in
        let mid = acted s s.players (poll_idle fl (idle_agent s.agent) s.agent.idle ticks) in
        let mark = is_playing s.players in
        let dark = record s.daemon { power = w; dimmed = true } in
        (mid.in_flight ≡ (mark, encode_idle_dim fl) ∷ (mark, encode_idle_sleep fl) ∷ [])
        × (on_line fl env mid.daemon fd (encode_idle_dim fl) ≡ done dark)
        × (on_line fl env dark fd (encode_idle_sleep fl) ≡ done (suspended fl fd dark))
        × ((on_daemon_line fl around (idle_agent mid.agent) (encode_lock fl)).deeds
            ≡ started s.agent.opts.lock_cmd ∷ [])
  unfolding idle_line is_active_agent has_any_inhibit profile
  idle_sleeps_machine s env around n m since d l t u a p w e₀ e₁ e₂ a₁ a₂ h₁ h₂ h₃ h₄ h₅ h₆ f q k₀
        k₁ k₂ k₃ k₄ k₅ k₆ k₇ k₈ =
      let ticks = wakes (touched since ∷ fires (since + t) ∷ fires (since + u) ∷ []) in
      let after = poll_idle fl (idle_agent s.agent) s.agent.idle ticks in
      let dark = record s.daemon { power = w; dimmed = true } in
      let opts : after.opts ≡ s.agent.opts =
        (poll_idle-Writes fl (idle_agent s.agent) n s.agent.idle ticks e₁).1.options in
      (
        watches-in_flight fl fd s n (with_times m d l) _ (dims ∷ sleeps ∷ []) e₀ e₁ e₂
            (reports m since d l t u a₁ a₂ h₁ h₂ h₃ h₄ h₅ h₆),
        on_line-idle_line fl env s.daemon fd a dims k₀
            ∙ on_idle_dim_complete fl env s.daemon fd p w k₁ k₄ k₅ k₆ k₈,
        on_line-idle_line fl env dark fd a sleeps k₀
            ∙ ap done (on_idle_sleep_complete env dark p fd k₁ k₄ k₆ k₇ k₃ k₂),
        ap (λ x. x.deeds) (on_daemon_line-encode_lock fl around (idle_agent after) f (rw opts q))
            ∙ ap (λ o. started o.lock_cmd ∷ []) opts,
      )
