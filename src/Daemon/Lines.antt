-- ===== src/Daemon/Lines.antt =====
-- The lines that src/agent/agent.cpp sends, and what src/daemon/daemon.cpp does when it reads them.
use draind.Base.{ℕ, false, ◌<◌, ◌^◌, ◌≡◌, refl, ◌∙◌, some, [], Text, text_eq, ok, Outcome, done}
use draind.Base.Maps.{lookup, insert}
use draind.Json.Value.{Value, Floats}
use draind.Json.Printer.{dump}
use draind.Idle.{IdleCall, dims, sleeps, active}
use draind.Mpris.{Call, inhibit, uninhibit}
use draind.Agent.{idle_line, mpris_line}
use draind.Protocol.{
  decode, t_hello, t_idle_dim, t_idle_sleep, t_active, encode_hello, encode_idle_dim,
  encode_idle_sleep, encode_active, encode_inhibit, encode_uninhibit, encode_ack, t_ack, t_ctl,
  typed,
}
use draind.Protocol.Messages.{
  decode-encode_hello, decode-encode_inhibit, decode-encode_uninhibit, decode-typed,
}
use draind.Daemon.State.{Daemon, AgentState, Env, send, send_config}
use draind.Daemon.Handlers.{
  on_hello, on_idle_dim, on_idle_sleep, on_active, on_inhibit, on_uninhibit, change_agent,
  add_inhibit, drop_inhibit,
}
use draind.Daemon.Loop.{on_line, dispatch, agent_message}

module _ (fl : Floats) (env : Env) (d : Daemon) (fd : ℕ) where
  -- A line that decodes is dispatched.
  pub on_line-dispatch :
      (line : Text) (v : Value)
      → decode fl line ≡ ok v
      → on_line fl env d fd line ≡ dispatch fl env d fd v
  unfolding on_line
  on_line-dispatch line v e = rw (on_line, e) refl

  -- What the daemon does when an idle monitor has made a call.
  abbrev pub on_idle_call : IdleCall → Outcome Daemon
  on_idle_call dims = on_idle_dim d fd
  on_idle_call sleeps = done (on_idle_sleep fl env d fd)
  on_idle_call active = on_active d fd

  -- A hello registers an agent of its session and user, with no reasons, and answers with the
  -- timeouts.
  pub on_line-encode_hello :
      (session_id : Text) (uid : ℕ)
      → uid < 2 ^ 32
      → on_line fl env d fd (encode_hello fl session_id uid)
        ≡ done (
            send_config fl
              (record d {
                agents =
                    insert fd
                      (record { session_id = session_id; uid = uid; inhibits = [] })
                      d.agents;
              })
              fd)
  unfolding dispatch on_hello text_eq
  on_line-encode_hello session_id uid h =
      let (v, e, t, s, u) = decode-encode_hello fl session_id uid h in
      on_line-dispatch (encode_hello fl session_id uid) v e ∙ rw (t, s, u) refl

  -- A message of nothing but its type is dispatched by that type.
  on_line-typed :
      (t : Text) (a : AgentState)
      → lookup fd d.agents ≡ some a
      → text_eq t t_hello ≡ false
      → text_eq t t_ctl ≡ false
      → (v : Value) × (on_line fl env d fd (dump fl (typed t))
          ≡ agent_message fl env d fd v t (some a))
  unfolding dispatch
  on_line-typed t a e h k =
      let (v, p, q) = decode-typed fl t in
      (v, on_line-dispatch (dump fl (typed t)) v p ∙ rw (q, h, k, e) refl)

  -- From a registered agent, the line of each call of its idle monitor has the effect of the
  -- handler for that call.
  pub on_line-idle_line :
      (a : AgentState) (c : IdleCall)
      → lookup fd d.agents ≡ some a
      → on_line fl env d fd (idle_line fl c) ≡ on_idle_call c
  unfolding agent_message text_eq idle_line encode_idle_dim encode_idle_sleep encode_active
  on_line-idle_line a dims e = (on_line-typed t_idle_dim a e refl refl).1
  on_line-idle_line a sleeps e = (on_line-typed t_idle_sleep a e refl refl).1
  on_line-idle_line a active e = (on_line-typed t_active a e refl refl).1

  -- From a registered agent, an ack outside the wait for one does nothing.
  pub on_line-encode_ack :
      (a : AgentState) → lookup fd d.agents ≡ some a → on_line fl env d fd (encode_ack fl) ≡ done d
  unfolding agent_message text_eq encode_ack
  on_line-encode_ack a e = (on_line-typed t_ack a e refl refl).1

  -- What the daemon does to the reasons of an agent for a call of its media player monitor.
  abbrev pub reasons_after : Call → AgentState → AgentState
  reasons_after (inhibit r) a = add_inhibit a r
  reasons_after (uninhibit r) a = drop_inhibit a r

  -- From a registered agent, the line of a call of its media player monitor adds the reason to
  -- that agent's, or takes it out, and is answered with an ack.
  pub on_line-mpris_line :
      (a : AgentState) (c : Call)
      → lookup fd d.agents ≡ some a
      → on_line fl env d fd (mpris_line fl c)
        ≡ done
            (send (record d { agents = insert fd (reasons_after c a) d.agents }) fd (encode_ack fl))
  unfolding dispatch agent_message text_eq mpris_line on_inhibit on_uninhibit change_agent
  on_line-mpris_line a (inhibit r) e =
      let (v, p, t, s) = decode-encode_inhibit fl r in
      on_line-dispatch (encode_inhibit fl r) v p ∙ rw (t, e, e, s) refl
  on_line-mpris_line a (uninhibit r) e =
      let (v, p, t, s) = decode-encode_uninhibit fl r in
      on_line-dispatch (encode_uninhibit fl r) v p ∙ rw (t, e, e, s) refl
