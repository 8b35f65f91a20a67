-- ===== src/Daemon/Refines.antt =====
-- The inhibits of src/daemon/daemon.cpp against the machine of Daemon/Board: whatever the messages are,
-- the daemon does what the machine does.
use draind.Base.{
  ℕ, not, ◌&&◌, Bool-cases, Option-cases, ◌≡◌, refl, sym, ap, ◌∙◌, subst, inl, inr, Option, none,
  some, List, [], ◌∷◌, Text, codes, text_eq, text_eq_sound, ◌==◌, ==_iff, left, arith,
}
use draind.Base.Maps.{lookup, lookup-insert, lookup-erase}
use draind.Json.Value.{Value, Floats, str}
use draind.Protocol.{
  msg_type, t_hello, t_ctl, t_idle_dim, t_idle_sleep, t_active, t_inhibit, t_uninhibit,
}
use draind.Daemon.State.{Daemon, AgentState, Env}
use draind.Daemon.Handlers.{
  on_disconnect, on_hello, on_inhibit, on_uninhibit, change_agent, new_agent,
}
use draind.Daemon.Loop.{dispatch, agent_message}
use draind.Daemon.Moves.Handlers.{on_idle_dim-Leads, on_active-Leads, on_idle_sleep-Reach}
use draind.Daemon.Board.{
  Board, Ask, arrive, leave, hold, release, obey, obey_all, agent_ask, ask_of, Agrees, Reach-Agrees,
}
use draind.Daemon.Moves.{nobody, Says-only, here, Leads}
use draind.Daemon.Moves.Requests.{on_ctl-Leads}
use draind.Daemon.Inhibits.{
  is_registered, holds-on_inhibit, holds-on_uninhibit, holds-on_hello, holds-on_disconnect,
}

module _ (fl : Floats) (d : Daemon) (b : Board) (h : Agrees d b) (fd : ℕ) where
  on_hello-Agrees : (msg : Value) → Agrees (on_hello fl d fd msg) (obey b (arrive fd))
  unfolding obey on_hello is_registered
  on_hello-Agrees msg = record {
    agents = λ j. ground (
      arith,
      lookup-insert fd j (new_agent fl msg) d.agents,
      h.agents j,
      Option-cases (lookup j d.agents),
    );
    reasons = λ j r. holds-on_hello fl d fd msg j r ∙ ap (λ x. not (fd == j) && x) (h.reasons j r);
  }

  on_disconnect-Agrees : Agrees (on_disconnect d fd) (obey b (leave fd))
  unfolding obey on_disconnect is_registered
  on_disconnect-Agrees = record {
    agents = λ j. ground (arith, lookup-erase fd j d.agents, h.agents j);
    reasons = λ j r. holds-on_disconnect d fd j r ∙ ap (λ x. not (fd == j) && x) (h.reasons j r);
  }

  -- A change of an agent that is there registers nobody.
  change_agent-registered :
      (f : AgentState → AgentState) (j : ℕ)
      → is_registered (change_agent fl d fd f (lookup fd d.agents)) j ≡ is_registered d j
  unfolding change_agent is_registered
  change_agent-registered f j = elim (Option-cases (lookup fd d.agents)) [
    | inl e ↦ rw e refl
    | inr (a, e) ↦ elim (Bool-cases (fd == j)) [
      | inl x ↦
          let there : lookup j d.agents ≡ some a =
            subst (λ i. lookup i d.agents ≡ some a) ((==_iff fd j).0 x) e in
          rw (e, is_registered, lookup-insert fd j (f a) d.agents, x, there) refl
      | inr x ↦ rw (e, is_registered, lookup-insert fd j (f a) d.agents, x) refl
    ]
  ]

  on_inhibit-Agrees :
      (msg : Value)
      → Agrees (on_inhibit fl d fd msg) (obey b (hold fd (str msg (codes "reason") [])))
  unfolding obey on_inhibit
  on_inhibit-Agrees msg = record {
    agents = λ j. change_agent-registered _ j ∙ h.agents j;
    reasons = λ j r. holds-on_inhibit fl d fd msg j r ∙ rw (h.agents fd, h.reasons j r) refl;
  }

  on_uninhibit-Agrees :
      (msg : Value)
      → Agrees (on_uninhibit fl d fd msg) (obey b (release fd (str msg (codes "reason") [])))
  unfolding obey on_uninhibit
  on_uninhibit-Agrees msg = record {
    agents = λ j. change_agent-registered _ j ∙ h.agents j;
    reasons = λ j r. holds-on_uninhibit fl d fd msg j r ∙ rw (h.reasons j r) refl;
  }

  -- The messages that only an agent may send, by their type.
  agent_message-Agrees :
      (env : Env) (msg : Value) (type : Text) (o : Option AgentState)
      → lookup fd d.agents ≡ o
      → Agrees (left (agent_message fl env d fd msg type o)) (obey b (agent_ask fd msg type))
  unfolding agent_message agent_ask obey Leads text_eq on_inhibit on_uninhibit change_agent
  agent_message-Agrees env msg type none e = elim (Bool-cases (text_eq type t_inhibit)) [
    | inl x ↦
        let same : on_inhibit fl d fd msg ≡ d = rw e refl in
        rw x (
          subst (λ z. Agrees z (obey b (hold fd (str msg (codes "reason") [])))) same
            (on_inhibit-Agrees msg))
    | inr x ↦ elim (Bool-cases (text_eq type t_uninhibit)) [
      | inl y ↦
          let same : on_uninhibit fl d fd msg ≡ d = rw e refl in
          rw (x, y)
            (subst (λ z. Agrees z (obey b (release fd (str msg (codes "reason") [])))) same
              (on_uninhibit-Agrees msg))
      | inr y ↦ rw (x, y) h
    ]
  ]
  agent_message-Agrees env msg type (some a) e =
      let as_asked = λ (t : Text).
        Agrees (left (agent_message fl env d fd msg t (some a))) (obey b (agent_ask fd msg t)) in
      elim (Bool-cases (text_eq type t_idle_dim)) [
        | inl x ↦
            subst as_asked (sym (text_eq_sound type t_idle_dim x))
              (Reach-Agrees b (on_idle_dim-Leads nobody d d fd here) h)
        | inr x ↦ elim (Bool-cases (text_eq type t_idle_sleep)) [
          | inl y ↦
              subst as_asked (sym (text_eq_sound type t_idle_sleep y))
                (Reach-Agrees b (on_idle_sleep-Reach nobody d fl (Says-only _ fl) env d fd here) h)
          | inr y ↦ elim (Bool-cases (text_eq type t_active)) [
            | inl z ↦
                subst as_asked (sym (text_eq_sound type t_active z))
                  (Reach-Agrees b (on_active-Leads nobody d d fd here) h)
            | inr z ↦ elim (Bool-cases (text_eq type t_inhibit)) [
              | inl v ↦ rw (x, y, z, v) (on_inhibit-Agrees msg)
              | inr v ↦ elim (Bool-cases (text_eq type t_uninhibit)) [
                | inl w ↦ rw (x, y, z, v, w) (on_uninhibit-Agrees msg)
                | inr w ↦ rw (x, y, z, v, w) h
              ]
            ]
          ]
        ]
      ]

  -- Whatever the message is, the daemon does what the machine does.
  pub dispatch-Agrees :
      (env : Env) (msg : Value) → Agrees (left (dispatch fl env d fd msg)) (obey b (ask_of fd msg))
  unfolding dispatch ask_of obey Leads text_eq
  dispatch-Agrees env msg = elim (Bool-cases (text_eq (msg_type msg) t_hello)) [
    | inl x ↦ rw x (on_hello-Agrees msg)
    | inr x ↦ elim (Bool-cases (text_eq (msg_type msg) t_ctl)) [
      | inl y ↦
          let type = text_eq_sound (msg_type msg) t_ctl y in
          rw type (Reach-Agrees b (on_ctl-Leads nobody fl (Says-only _ fl) d env d fd msg here) h)
      | inr y ↦ rw (x, y) (agent_message-Agrees env msg (msg_type msg) (lookup fd d.agents) refl)
    ]
  ]

-- What comes from the clients: a message, or the end of a connection.
pub data Input : Type 0 where
  message : Env → ℕ → Value → Input
  gone : ℕ → Input

unfoldable pub asks : List Input → List Ask
asks [] = []
asks (message env fd msg ∷ inputs) = ask_of fd msg ∷ asks inputs
asks (gone fd ∷ inputs) = leave fd ∷ asks inputs

module _ (fl : Floats) where
  -- The daemon's handlers, one input after the other.
  unfoldable pub handle_all : Daemon → List Input → Daemon
  handle_all d [] = d
  handle_all d (message env fd msg ∷ inputs) = handle_all (left (dispatch fl env d fd msg)) inputs
  handle_all d (gone fd ∷ inputs) = handle_all (on_disconnect d fd) inputs

  -- Refinement: from states that agree, the daemon after any messages, of whatever types and from
  -- whatever clients, and any disconnects agrees with the machine that has obeyed what they ask, on
  -- who is registered and on who holds which reason.
  pub handle_all-Agrees :
      (d : Daemon) (b : Board) (inputs : List Input)
      → Agrees d b
      → Agrees (handle_all d inputs) (obey_all b (asks inputs))
  unfolding handle_all obey_all asks
  handle_all-Agrees d b [] h = h
  handle_all-Agrees d b (message env fd msg ∷ inputs) h =
      handle_all-Agrees (left (dispatch fl env d fd msg)) (obey b (ask_of fd msg)) inputs
        (dispatch-Agrees fl d b h fd env msg)
  handle_all-Agrees d b (gone fd ∷ inputs) h =
      handle_all-Agrees (on_disconnect d fd) (obey b (leave fd)) inputs
        (on_disconnect-Agrees fl d b h fd)
