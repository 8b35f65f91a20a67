-- ===== src/Daemon/Policy.antt =====
-- When the idle messages of an agent have an effect in src/daemon/daemon.cpp.
use draind.Base.{
  ℕ, true, false, Bool-cases, Option-cases, ◌≡◌, ◌≢◌, inl, inr, some, Text, text_eq_iff, done,
  Outcome-cases, arith,
}
use draind.Base.Maps.{lookup}
use draind.Json.Value.{Floats}
use draind.Config.{Profile}
use draind.Power
use draind.Session.{is_active}
use draind.Daemon.State.{
  Daemon, AgentState, Env, has_any_inhibit, agent_is_active, is_active_agent, profile,
}
use draind.Daemon.Handlers.{on_idle_dim, on_idle_sleep, on_active, dim_by}
use draind.Daemon.Inhibits.{holds, any_inhibit-lookup}

module _ (fl : Floats) (env : Env) (d : Daemon) (fd : ℕ) where
  -- While any agent holds a reason, of whatever session it is, no agent's idle message dims the
  -- screen or suspends the machine.
  pub inhibit_suppresses :
      (holder : ℕ) (r : Text)
      → holds d holder r ≡ true
      → (on_idle_dim d fd ≡ done d) × (on_idle_sleep fl env d fd ≡ d)
  unfolding on_idle_dim on_idle_sleep holds has_any_inhibit
  inhibit_suppresses holder r h =
      let e = any_inhibit-lookup holder r d.agents h in (ground (arith, e), ground (arith, e))

  is_active_agent-session :
      (a : AgentState)
      → lookup fd d.agents ≡ some a
      → is_active_agent d fd ≡ true
      → a.session_id ≡ d.active_session
  unfolding is_active_agent agent_is_active is_active
  is_active_agent-session a e h = ground (arith, e, text_eq_iff a.session_id d.active_session)

  -- An agent whose session is not the active one dims nothing, suspends nothing and restores
  -- nothing.
  pub inactive_session_ignored :
      (a : AgentState)
      → lookup fd d.agents ≡ some a
      → a.session_id ≢ d.active_session
      → (on_idle_dim d fd ≡ done d) × (on_idle_sleep fl env d fd ≡ d) × (on_active d fd ≡ done d)
  unfolding on_idle_dim on_idle_sleep on_active
  inactive_session_ignored a e h = elim (Bool-cases (is_active_agent d fd)) [
    | inl x ↦ absurd (h (is_active_agent-session a e x))
    | inr x ↦ (rw x, rw x, rw x)
  ]

  -- A message dims a screen that is not dimmed only if the agent's session is active, no agent
  -- holds a reason and a profile is in force; and the power state is then the one that dimming by
  -- this profile leaves.
  pub on_idle_dim_sound :
      (d' : Daemon)
      → on_idle_dim d fd ≡ done d'
      → d.dimmed ≡ false
      → d'.dimmed ≡ true
      → (is_active_agent d fd ≡ true)
        × (has_any_inhibit d ≡ false)
        × ((p : Profile) × (profile d ≡ some p) × (Power.dim d.power p ≡ done d'.power))
  unfolding on_idle_dim dim_by
  on_idle_dim_sound d' e off on = elim (Bool-cases (is_active_agent d fd)) [
    | inr x ↦ absurd (ground (arith, e, off, on, x))
    | inl x ↦ elim (Bool-cases (has_any_inhibit d)) [
      | inl y ↦ absurd (ground (arith, e, off, on, x, y))
      | inr y ↦ elim (Option-cases (profile d)) [
        | inl z ↦ absurd (ground (arith, e, off, on, x, y, z))
        | inr (p, z) ↦ elim (Outcome-cases (Power.dim d.power p)) [
          | inl (w, k) ↦ (x, y, (p, z, ground (arith, e, off, on, x, y, z, k)))
          | inr (t, w, k) ↦ absurd (ground (arith, e, off, on, x, y, z, k))
        ]
      ]
    ]
  ]

  -- Where the agent's session is active, no agent holds a reason, the screen is not dimmed and a
  -- profile is in force, a dimming that returns is recorded, and nothing but the power state and
  -- the mark changes.
  pub on_idle_dim_complete :
      (p : Profile) (w : Power.Power)
      → is_active_agent d fd ≡ true
      → has_any_inhibit d ≡ false
      → d.dimmed ≡ false
      → profile d ≡ some p
      → Power.dim d.power p ≡ done w
      → on_idle_dim d fd ≡ done (record d { power = w; dimmed = true })
  unfolding on_idle_dim dim_by
  on_idle_dim_complete p w h₁ h₂ h₃ h₄ h₅ = ground (arith, h₁, h₂, h₃, h₄, h₅)
