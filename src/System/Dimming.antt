-- ===== src/System/Dimming.antt =====
-- From the clock of an agent's idle monitor to the screen that the daemon dims.
use draind.Base.{
  ℕ, ◌+◌, ◌<◌, ◌≤◌, ◌^◌, int_half, true, false, ◌≡◌, refl, ap, ◌∙◌, some, List, [], ◌∷◌, ◌++◌, map,
  Text, done, arith,
}
use draind.Base.Maps.{lookup}
use draind.Json.Value.{Floats}
use draind.Config.{Profile}
use draind.Power
use draind.Idle
use draind.Idle.{InputIdle, dims, touched, fires, on_input}
use draind.Idle.Timer.{with_times, dims_then_sleeps}
use draind.Protocol.{encode_idle_dim}
use draind.Daemon.Loop.{on_line}
use draind.Agent.{Agent, input, idle_line}
use draind.Agent.Running.{wakes, poll_idle, poll_monitor}
use draind.Daemon.State.{AgentState, Env, is_active_agent, has_any_inhibit, profile}
use draind.Daemon.Lines.{on_line-idle_line}
use draind.Daemon.Policy.{on_idle_dim_complete}
use draind.System.{System, acted, is_playing, idle_agent, lines_of}
use draind.System.Acts.{send_all-Writes}

module _ (fl : Floats) (fd : ℕ) where
  -- What the timer of an agent writes when its time to dim has passed.
  reports :
      (m : InputIdle) (s d l t : ℕ)
      → m.dimmed ≡ false
      → m.sleeping ≡ false
      → 0 < d
      → d ≤ t
      → t < l
      → s + l < 2 ^ 64
      → l < int_half
      → (Idle.poll
          (record (with_times m d l) { calls = [] })
          (touched s ∷ fires (s + t) ∷ [])).calls
        ≡ dims ∷ []
  unfolding Idle.poll with_times
  reports m s d l t a b h₁ h₂ h₃ h₄ h₅ =
      let told =
        dims_then_sleeps (record m { calls = [] }) s d l t l h₁ h₂ h₃ (omega arith) h₄ h₅ in
      told.1 ∙ rw (a, b) refl

  poll_input-lines :
      (a : Agent) (n : ℕ) (m : InputIdle) (ws : List Idle.Wake) (calls : List Idle.IdleCall)
      → a.daemon_fd ≡ some n
      → (Idle.poll (record m { calls = [] }) ws).calls ≡ calls
      → lines_of (poll_idle fl a (some (input m)) (wakes ws)).deeds
        ≡ lines_of a.deeds ++ map (idle_line fl) calls
  unfolding poll_idle poll_monitor
  poll_input-lines a n m ws calls h e =
      let m' = Idle.poll (record m { calls = [] }) ws in
      (send_all-Writes (record a { idle = some (input m') }) n (map (idle_line fl) m'.calls)
        h).written
      ∙ ap (λ cs. lines_of a.deeds ++ map (idle_line fl) cs) e

  -- So what is in flight behind a poll of the monitor is the lines of its calls.
  pub watches-in_flight :
      (s : System) (n : ℕ) (m : InputIdle) (ws : List Idle.Wake) (calls : List Idle.IdleCall)
      → s.in_flight ≡ []
      → s.agent.daemon_fd ≡ some n
      → s.agent.idle ≡ some (input m)
      → (Idle.poll (record m { calls = [] }) ws).calls ≡ calls
      → let after = poll_idle fl (idle_agent s.agent) s.agent.idle (wakes ws) in
        (acted s s.players after).in_flight
        ≡ map (λ line. (is_playing s.players, line)) (map (idle_line fl) calls)
  unfolding lines_of
  watches-in_flight s n m ws calls e₀ e₁ e₂ h =
      let after = poll_idle fl (idle_agent s.agent) s.agent.idle (wakes ws) in
      let marked = map (λ (line : Text). (is_playing s.players, line)) in
      ap (λ xs. xs ++ marked (lines_of after.deeds)) e₀
      ∙ ap marked (
          ap (λ o. lines_of (poll_idle fl (idle_agent s.agent) o (wakes ws)).deeds) e₂
          ∙ poll_input-lines (idle_agent s.agent) n m ws calls e₁ h)

  -- An agent that is connected, has no line in flight and has an input monitor that has reported nothing
  -- since the last activity; a daemon that has this agent, in the active session, with no reason held by
  -- anybody, a screen that is not dimmed, and a backlight that takes the dimming of the profile in force.
  -- Then an input of the user, followed by the firing of the timer when the time to dim has passed and the
  -- longer time to sleep has not, makes the agent write the idle_dim line and nothing else, and the daemon
  -- that takes this line dims the screen and changes nothing else. The clock stays below 2 ^ 64 and the times within the range of `int`.
  pub idle_dims_screen :
      (s : System) (env : Env) (n : ℕ) (m : InputIdle) (since d l t : ℕ) (a : AgentState)
      (p : Profile) (w : Power.Power)
      → s.in_flight ≡ []
      → s.agent.daemon_fd ≡ some n
      → s.agent.idle ≡ some (input (with_times m d l))
      → m.dimmed ≡ false
      → m.sleeping ≡ false
      → 0 < d
      → d ≤ t
      → t < l
      → since + l < 2 ^ 64
      → l < int_half
      → lookup fd s.daemon.agents ≡ some a
      → is_active_agent s.daemon fd ≡ true
      → has_any_inhibit s.daemon ≡ false
      → s.daemon.dimmed ≡ false
      → profile s.daemon ≡ some p
      → Power.dim s.daemon.power p ≡ done w
      → let events = wakes (touched since ∷ fires (since + t) ∷ []) in
        let mid = acted s s.players (poll_idle fl (idle_agent s.agent) s.agent.idle events) in
        (mid.in_flight ≡ (is_playing s.players, encode_idle_dim fl) ∷ [])
        × (on_line fl env mid.daemon fd (encode_idle_dim fl)
            ≡ done (record s.daemon { power = w; dimmed = true }))
  unfolding idle_line
  idle_dims_screen s env n m since d l t a p w e₀ e₁ e₂ a₁ a₂ h₁ h₂ h₃ h₄ h₅ k₀ k₁ k₂ k₃ k₄ k₅ = (
    watches-in_flight s n (with_times m d l) _ (dims ∷ []) e₀ e₁ e₂
        (reports m since d l t a₁ a₂ h₁ h₂ h₃ h₄ h₅),
    on_line-idle_line fl env s.daemon fd a dims k₀
        ∙ on_idle_dim_complete fl env s.daemon fd p w k₁ k₂ k₃ k₄ k₅,
  )
