-- ===== src/Daemon/Start.antt =====
-- What holds when `setup` of src/daemon/daemon.cpp returns, and when it does.
use draind.Base.{
  Outcome-cases, err-ne-ok, left, ℕ, ◌≡◌, refl, sym, false, Option-cases, Option, none, some, [],
  List, inl, inr, Text, ok, >>=-eq-ok, ok-injective, subst,
}
use draind.Json.Value.{Floats}
use draind.Config.{Config, Profile, load_config}
use draind.Config.Loading.{IsLoaded, load_config-IsLoaded}
use draind.Power
use draind.Session
use draind.Protocol
use draind.Server
use draind.Daemon.State.{
  Daemon, Env, with_power, do_suspend, run_hw_action, send_lock_to_active_agent,
}
use draind.Daemon.Loop.{Event, loop}
use draind.Daemon.Marks.{pre_sleep_never_sent}
use draind.Daemon.Control.{apply_by}
use draind.Daemon.Setup.{Boot, first_state, from_outcome, start, setup}

-- A daemon that has just started: its configuration is one that loads, its active session is the
-- one that logind answered with, nobody is connected, and nothing has been done to the outside.
pub record IsStarted (b : Boot) (d : Daemon) : Type 0 where
  pub loaded : IsLoaded d.manager.config
  pub in_force : d.manager.active ≡ d.manager.config.active_profile
  pub session : d.active_session ≡ (Session.init b.logind).1.active_session_id
  pub no_conns : d.conns ≡ []
  pub no_agents : d.agents ≡ []
  pub bright : d.dimmed ≡ false
  pub quiet : d.log ≡ []
  pub socket : (fd : ℕ) × (Server.init b.socket Protocol.socket_path ≡ some fd)

-- Applying a profile changes the power state alone.
from_outcome-apply_by :
    (d e : Daemon) (o : Option Profile)
    → from_outcome (apply_by d o) ≡ ok e
    → e ≡ record d { power = e.power }
unfolding from_outcome apply_by with_power
from_outcome-apply_by d e none h =
    subst (λ x. x ≡ record d { power = x.power }) (ok-injective h) refl
from_outcome-apply_by d e (some p) h = elim (Outcome-cases (Power.apply d.power p)) [
  | inl (w, k) ↦ subst (λ x. x ≡ record d { power = x.power }) (ok-injective (rw k at h)) refl
  | inr (t, w, k) ↦ absurd (err-ne-ok (rw k at h))
]

module _ (fl : Floats) (b : Boot) where
  first_state-IsStarted :
      (c : Config) (w : Power.Power)
      → IsLoaded c
      → (fd : ℕ) × (Server.init b.socket Protocol.socket_path ≡ some fd)
      → IsStarted b (record (first_state fl b c) { power = w })
  first_state-IsStarted c w l s = record {
    loaded = l;
    in_force = refl;
    session = refl;
    no_conns = refl;
    no_agents = refl;
    bright = refl;
    quiet = refl;
    socket = s;
  }

  -- Where `setup` returns, its configuration is one that loads, its active profile is in force, the session
  -- that logind answered with is the active one, the server listens on a descriptor, nobody is connected
  -- or registered, the screen is not dimmed, and no line has been sent and no command run.
  pub setup-IsStarted : (d : Daemon) → setup fl b ≡ ok d → IsStarted b d
  unfolding setup start
  setup-IsStarted d e =
      let (c, loads, starts) = >>=-eq-ok (load_config fl b.path b.file) (start fl b) e in
      elim (Option-cases (Server.init b.socket Protocol.socket_path)) [
        | inr s ↦
            let same = from_outcome-apply_by (first_state fl b c) d _ (rw (start, s.1) at starts) in
            subst (IsStarted b) (sym same)
              (first_state-IsStarted c d.power (load_config-IsLoaded fl b.path b.file c loads) s)
        | inl s ↦ absurd (err-ne-ok (rw (start, s) at starts))
      ]

  -- Whatever happens to a daemon between its start by `setup` and a suspend, the suspend is the
  -- lock and then the command: no pre_sleep message is sent and nothing waits for an ack.
  pub started_never_asks :
      (d : Daemon) (events : List (Env × Event)) (env : Env) (action : Text)
      → setup fl b ≡ ok d
      → let e = left (loop fl d events) in
        do_suspend fl env action e ≡ run_hw_action (send_lock_to_active_agent fl e) action
  started_never_asks d events env action e =
      pre_sleep_never_sent fl d events env action (setup-IsStarted d e).no_conns
