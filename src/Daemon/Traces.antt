-- ===== src/Daemon/Traces.antt =====
-- The dispatch and the event loop of src/daemon/daemon.cpp make no
-- other changes than those of Daemon/Moves.
use draind.Base.{
  ◌≡◌, refl, All, ℕ, Bool, true, false, Option, none, some, Option-cases, List, [], ◌∷◌, Text,
  is_empty, if◌then◌else◌, ok, err, out_of_fuel, Outcome, done, throws, inl, inr,
}
use draind.Base.Maps.{lookup, insert}
use draind.Json.Value.{Value, Floats}
use draind.Socket.{ReadResult, feed}
use draind.Protocol.{decode, msg_type}
use draind.Session
use draind.Daemon.State.{Daemon, AgentState, Env, watched, unwatched, emit, epoll_del}
use draind.Daemon.Handlers.{on_disconnect}
use draind.Daemon.Loop.{
  Event, logind, connects, ready, hardware, agent_message, dispatch, reject, on_line, on_lines,
  finish_client, serve, handle_client, accept_client, step, loop,
}
use draind.Daemon.Moves.Handlers.{
  on_idle_dim-Leads, on_active-Leads, on_disconnect-Reach, close_client-Reach, on_hello-Reach,
  on_idle_sleep-Reach, on_inhibit-Reach, on_uninhibit-Reach, on_event-Reach,
}
use draind.Daemon.Moves.Requests.{then-Leads, on_ctl-Leads}
use draind.Daemon.Moves.{
  Limits, anyone, Says, Fits, Reach, output, switch, buffer, connect, Leads, if-Leads, done-Leads,
}

-- The client that an event is about may change its entry.
abbrev pub Allows : Limits → Event → Type 0
Allows k (logind ms) = Unit
Allows k (connects fd) = Unit
Allows k (ready fd rs) = k.members fd ≡ true
Allows k (hardware event) = Unit

pub anyone-Allows : (events : List (Env × Event)) → All (λ (env, event). Allows anyone event) events
anyone-Allows [] = tt
anyone-Allows ((env, logind ms) ∷ events) = (tt, anyone-Allows events)
anyone-Allows ((env, connects fd) ∷ events) = (tt, anyone-Allows events)
anyone-Allows ((env, ready fd rs) ∷ events) = (refl, anyone-Allows events)
anyone-Allows ((env, hardware event) ∷ events) = (tt, anyone-Allows events)

module _ (k : Limits) (fl : Floats) (says : Says k fl) (d : Daemon) where
  agent_message-Leads :
      (env : Env) (e : Daemon) (fd : ℕ) (msg : Value) (type : Text) (o : Option AgentState)
      → k.members fd ≡ true
      → Reach k d e
      → Leads k d (agent_message fl env e fd msg type o)
  unfolding agent_message
  agent_message-Leads env e fd msg type none p h = done-Leads k d h
  agent_message-Leads env e fd msg type (some a) p h =
      if-Leads k d _ _ _ (on_idle_dim-Leads k d e fd h) (
        if-Leads k d _ _ _ (done-Leads k d (on_idle_sleep-Reach k d fl says env e fd h)) (
          if-Leads k d _ _ _ (on_active-Leads k d e fd h) (
            if-Leads k d _ _ _ (done-Leads k d (on_inhibit-Reach k d fl says e fd msg p h)) (
              if-Leads k d _ _ _ (done-Leads k d (on_uninhibit-Reach k d fl says e fd msg p h))
                (done-Leads k d h)))))

  dispatch-Leads :
      (env : Env) (e : Daemon) (fd : ℕ) (msg : Value)
      → k.members fd ≡ true
      → Reach k d e
      → Leads k d (dispatch fl env e fd msg)
  unfolding dispatch
  dispatch-Leads env e fd msg p h =
      if-Leads k d _ _ _ (done-Leads k d (on_hello-Reach k d fl says e fd msg p h)) (
        if-Leads k d _ _ _ (on_ctl-Leads k fl says d env e fd msg h)
          (agent_message-Leads env e fd msg (msg_type msg) (lookup fd e.agents) p h))

  reject-Leads : (e : Daemon) (fd : ℕ) → Reach k d e → Leads k d (done (reject fl e fd))
  unfolding reject epoll_del emit Fits
  reject-Leads e fd h =
      done-Leads k d (output (unwatched fd ∷ []) (tt, tt) (close_client-Reach k d e fd h))

  on_line-Leads :
      (env : Env) (e : Daemon) (fd : ℕ) (line : Text)
      → k.members fd ≡ true
      → Reach k d e
      → Leads k d (on_line fl env e fd line)
  unfolding on_line
  on_line-Leads env e fd line p h =
      elim (decode fl line)
        as (λ o. Leads k d (elim o [
          | ok msg ↦ dispatch fl env e fd msg
          | err t ↦ done (reject fl e fd)
          | out_of_fuel ↦ done (reject fl e fd)
        ])) [
          | ok msg ↦ dispatch-Leads env e fd msg p h
          | err t ↦ reject-Leads e fd h
          | out_of_fuel ↦ reject-Leads e fd h
        ]

  on_lines-Leads :
      (env : Env) (e : Daemon) (fd : ℕ) (lines : List Text)
      → k.members fd ≡ true
      → Reach k d e
      → Leads k d (on_lines fl env e fd lines)
  unfolding on_lines
  on_lines-Leads env e fd [] p h = done-Leads k d h
  on_lines-Leads env e fd (line ∷ lines) p h =
      then-Leads k fl says d (if is_empty line then done e else on_line fl env e fd line)
        (λ e'. on_lines fl env e' fd lines)
        (if-Leads k d (is_empty line) _ _ (done-Leads k d h) (on_line-Leads env e fd line p h))
        (λ e' q. on_lines-Leads env e' fd lines p q)

  finish_client-Leads :
      (fd : ℕ) (alive : Bool) (o : Outcome Daemon)
      → k.members fd ≡ true
      → Leads k d o
      → Leads k d (finish_client fl fd alive o)
  unfolding finish_client Leads
  finish_client-Leads fd alive (throws t e) p h = h
  finish_client-Leads fd true (done e) p h = h
  finish_client-Leads fd false (done e) p h =
      close_client-Reach k d (on_disconnect e fd) fd (on_disconnect-Reach k d e fd p h)

  handle_client-Leads :
      (env : Env) (e : Daemon) (fd : ℕ) (rs : List ReadResult)
      → k.members fd ≡ true
      → Reach k d e
      → Leads k d (handle_client fl env e fd rs)
  unfolding handle_client serve
  handle_client-Leads env e fd rs p h = elim (Option-cases (lookup fd e.conns)) [
    | inl q ↦ rw q (done-Leads k d h)
    | inr (c, q) ↦
        let (alive, lines, rest) = feed c.buf rs in
        let e' = record e { conns = insert fd (record c { buf = rest }) e.conns } in
        let served = on_lines-Leads env e' fd lines p (buffer fd c rest q h) in
        rw q (finish_client-Leads fd alive (on_lines fl env e' fd lines) p served)
  ]

  -- One event of the loop, whether it ends well or something is thrown.
  pub step-Leads :
      (env : Env) (e : Daemon) (event : Event)
      → Allows k event
      → Reach k d e
      → Leads k d (step fl env e event)
  unfolding step
  step-Leads env e (logind ms) p h = done-Leads k d (switch (Session.poll e.active_session ms) h)
  step-Leads env e (connects fd) p h =
      unfold accept_client emit Fits in
      done-Leads k d (output (watched fd ∷ []) (tt, tt) (connect fd h))
  step-Leads env e (ready fd rs) p h = handle_client-Leads env e fd rs p h
  step-Leads env e (hardware event) p h = done-Leads k d (on_event-Reach k d fl says env e event h)

  pub loop-Leads :
      (e : Daemon) (events : List (Env × Event))
      → All (λ (env, event). Allows k event) events
      → Reach k d e
      → Leads k d (loop fl e events)
  unfolding loop
  loop-Leads e [] ps h = done-Leads k d h
  loop-Leads e ((env, event) ∷ events) (p, ps) h =
      then-Leads k fl says d (step fl env e event) (λ e'. loop fl e' events)
        (step-Leads env e event p h) (λ e' q. loop-Leads e' events ps q)
