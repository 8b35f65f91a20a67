-- ===== src/Daemon/Marks.antt =====
-- The mark `is_agent` of src/daemon/server.hpp along every run of the event loop of
-- src/daemon/daemon.cpp.
use draind.Base.{
  ℕ, false, ◌≡◌, refl, none, some, List, [], ◌∷◌, ◌++◌, Text, left, All, subst, sym, ap, ◌∙◌,
}
use draind.Base.Maps.{lookup, insert, insert-All, erase-All, lookup-All}
use draind.Json.Value.{Floats}
use draind.Protocol.{encode_pre_sleep}
use draind.Server.{Connection, Connections, fresh, emplace, agent_fds, written_fds}
use draind.Daemon.State.{
  Daemon, Env, run_hw_action, send_lock_to_active_agent, broadcast_and_wait_acks, send_each,
  wait_outputs, do_suspend,
}
use draind.Daemon.Loop.{Event, loop}
use draind.Daemon.Moves.Handlers.{send_lock-Reach}
use draind.Daemon.Moves.{
  anyone, Says-only, Reach, here, output, power, configure, switch, register, forget, buffer,
  connect, close, Leads,
}
use draind.Daemon.Traces.{anyone-Allows, loop-Leads}
use draind.Daemon.Suspend.{extend, extend-nil, broadcast-extend}

abbrev pub Unmarked : Connection → Type 0
Unmarked c = c.is_agent ≡ false

-- No connection has the mark.
unfoldable pub IsUnmarked : Connections → Type 0
IsUnmarked conns = All (λ (fd, c). Unmarked c) conns

emplace-IsUnmarked :
    (fd : ℕ) (conns : Connections) → IsUnmarked conns → IsUnmarked (emplace fd conns)
unfolding emplace IsUnmarked
emplace-IsUnmarked fd conns h =
    elim (lookup fd conns)
      as (λ o. IsUnmarked (elim o [ none ↦ insert fd fresh conns | some c ↦ conns ])) [
        | none ↦ insert-All Unmarked fd fresh conns refl h
        | some c ↦ h
      ]

Reach-IsUnmarked : {d e : Daemon} → Reach anyone d e → IsUnmarked d.conns → IsUnmarked e.conns
unfolding IsUnmarked
Reach-IsUnmarked here h = h
Reach-IsUnmarked (output xs f r) h = Reach-IsUnmarked r h
Reach-IsUnmarked (power w b r) h = Reach-IsUnmarked r h
Reach-IsUnmarked (configure m r) h = Reach-IsUnmarked r h
Reach-IsUnmarked (switch s r) h = Reach-IsUnmarked r h
Reach-IsUnmarked (register fd a p r) h = Reach-IsUnmarked r h
Reach-IsUnmarked (forget fd p r) h = Reach-IsUnmarked r h
Reach-IsUnmarked (buffer {e} fd c rest k r) h =
    let hs = Reach-IsUnmarked r h in
    insert-All Unmarked fd (record c { buf = rest }) e.conns (lookup-All Unmarked fd c e.conns hs k)
      hs
Reach-IsUnmarked (connect {e} fd r) h = emplace-IsUnmarked fd e.conns (Reach-IsUnmarked r h)
Reach-IsUnmarked (close {e} fd r) h = erase-All Unmarked fd e.conns (Reach-IsUnmarked r h)

agent_fds-IsUnmarked : (conns : Connections) → IsUnmarked conns → agent_fds conns ≡ []
unfolding agent_fds IsUnmarked
agent_fds-IsUnmarked [] h = refl
agent_fds-IsUnmarked ((fd, c) ∷ conns) (h, hs) = rw (h, agent_fds-IsUnmarked conns hs) refl

run-Reach :
    (fl : Floats) (d : Daemon) (events : List (Env × Event))
    → Reach anyone d (left (loop fl d events))
unfolding Leads
run-Reach fl d events = loop-Leads anyone fl (Says-only _ fl) d d events (anyone-Allows events) here

module _ (fl : Floats) where
  -- Every run of the event loop that starts where no connection has the mark ends so.
  loop-IsUnmarked :
      (d : Daemon) (events : List (Env × Event))
      → IsUnmarked d.conns
      → IsUnmarked (left (loop fl d events)).conns
  unfolding Leads
  loop-IsUnmarked d events h = Reach-IsUnmarked (run-Reach fl d events) h

  broadcast_unmarked :
      (env : Env) (line : Text) (d : Daemon)
      → IsUnmarked d.conns
      → broadcast_and_wait_acks fl env line d ≡ d
  unfolding send_each wait_outputs written_fds
  broadcast_unmarked env line d h =
      let outputs = λ (fds : List ℕ).
        send_each line fds ++ wait_outputs (written_fds env.line_ok fds) env.rounds in
      let nobody = ap (λ fds. extend d (outputs fds)) (agent_fds-IsUnmarked d.conns h) in
      broadcast-extend fl env line d ∙ (nobody ∙ extend-nil d)

  pub suspend_unmarked :
      (env : Env) (action : Text) (d : Daemon)
      → IsUnmarked d.conns
      → do_suspend fl env action d ≡ run_hw_action (send_lock_to_active_agent fl d) action
  unfolding do_suspend
  suspend_unmarked env action d h =
      let locked = send_lock_to_active_agent fl d in
      let unmarked = Reach-IsUnmarked (send_lock-Reach anyone d fl (Says-only _ fl) d here) h in
      ap (λ e. run_hw_action e action)
        (broadcast_unmarked env (encode_pre_sleep fl) locked unmarked)

  -- After any run of the event loop that started with no connection, a suspend is the lock and then
  -- the command: no connection is ever marked as an agent's, so the message before the suspend is
  -- sent to nobody and nothing waits for an ack.
  pub pre_sleep_never_sent :
      (d : Daemon) (events : List (Env × Event)) (env : Env) (action : Text)
      → d.conns ≡ []
      → let e = left (loop fl d events) in
        do_suspend fl env action e ≡ run_hw_action (send_lock_to_active_agent fl e) action
  pre_sleep_never_sent d events env action h =
      suspend_unmarked env action (left (loop fl d events))
        (loop-IsUnmarked d events (subst IsUnmarked (sym h) (unfold IsUnmarked in tt)))
