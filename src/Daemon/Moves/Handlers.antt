-- ===== src/Daemon/Moves/Handlers.antt =====
-- The handlers of src/daemon/daemon.cpp make no other changes than those of Daemon/Moves.
use draind.Base.{
  ℕ, true, false, ◌≡◌, Option, none, some, [], ◌∷◌, ◌++◌, Text, codes, leb_ℤ, pos, not, done,
  throws, left, All-append,
}
use draind.Base.Maps.{lookup, insert}
use draind.Json.Value.{Value, Floats}
use draind.Config.{Profile}
use draind.Power
use draind.Power.{Power}
use draind.Server.{agent_fds, written_fds}
use draind.HwEvents.{HwEvent, command_for}
use draind.Protocol.{encode_lock, encode_pre_sleep, encode_ack}
use draind.Daemon.State.{
  Daemon, AgentState, Env, sent, closed, unwatched, ran, emit, send, close_client, epoll_del,
  profile, send_config, config_line, send_each, wait_outputs, lock_target,
  send_lock_to_active_agent, broadcast_and_wait_acks, run_hw_action, do_suspend, is_active_agent,
  has_any_inhibit,
}
use draind.Daemon.Handlers.{
  on_disconnect, on_hello, on_idle_dim, on_idle_sleep, on_active, on_inhibit, on_uninhibit,
  on_event, act, dim_by, undim_by, suspend_by, change_agent, action_of, new_agent,
}
use draind.Daemon.Moves.{
  Limits, Fits, Reach, output, power, register, forget, close, Says, send_each-Fits,
  wait_outputs-Fits, Leads, if-Leads, if-Reach, done-Leads,
}

module _ (k : Limits) (d : Daemon) where
  run_hw_action-Reach :
      (e : Daemon) (action : Text) → Reach k d e → Reach k d (run_hw_action e action)
  unfolding run_hw_action emit Fits
  run_hw_action-Reach e action h =
      elim (command_for action)
        as (λ o. Reach k d (elim o [ none ↦ e | some cmd ↦ emit e (ran cmd) ])) [
          | none ↦ h
          | some cmd ↦ output (ran cmd ∷ []) (tt, tt) h
        ]

  dim_by-Leads : (e : Daemon) (p : Option Profile) → Reach k d e → Leads k d (dim_by e p)
  unfolding dim_by Leads
  dim_by-Leads e none h = h
  dim_by-Leads e (some p) h =
      elim (Power.dim e.power p)
        as (λ o. Reach k d (
          left (elim o [
            | done w ↦ done (record e { power = w; dimmed = true })
            | throws t w ↦ throws t (record e { power = w })
          ]))) [ done w ↦ power w true h | throws t w ↦ power w e.dimmed h ]

  undim_by-Leads : (e : Daemon) (p : Option Profile) → Reach k d e → Leads k d (undim_by e p)
  unfolding undim_by Leads
  undim_by-Leads e none h = h
  undim_by-Leads e (some p) h =
      elim (Power.undim e.power p)
        as (λ o. Reach k d (
          left (elim o [
            | done w ↦ done (record e { power = w; dimmed = false })
            | throws t w ↦ throws t (record e { power = w })
          ]))) [ done w ↦ power w false h | throws t w ↦ power w e.dimmed h ]

  pub on_idle_dim-Leads : (e : Daemon) (fd : ℕ) → Reach k d e → Leads k d (on_idle_dim e fd)
  unfolding on_idle_dim
  on_idle_dim-Leads e fd h =
      let same = done-Leads k d h in
      if-Leads k d (not (is_active_agent e fd)) _ _ same (
        if-Leads k d (has_any_inhibit e) _ _ same
          (if-Leads k d e.dimmed _ _ same (dim_by-Leads e (profile e) h)))

  pub on_active-Leads : (e : Daemon) (fd : ℕ) → Reach k d e → Leads k d (on_active e fd)
  unfolding on_active
  on_active-Leads e fd h =
      let same = done-Leads k d h in
      if-Leads k d (not (is_active_agent e fd)) _ _ same
        (if-Leads k d (not e.dimmed) _ _ same (undim_by-Leads e (profile e) h))

  pub on_disconnect-Reach :
      (e : Daemon) (fd : ℕ) → k.members fd ≡ true → Reach k d e → Reach k d (on_disconnect e fd)
  unfolding on_disconnect epoll_del emit Fits
  on_disconnect-Reach e fd p h = output (unwatched fd ∷ []) (tt, tt) (forget fd p h)

  pub close_client-Reach : (e : Daemon) (fd : ℕ) → Reach k d e → Reach k d (close_client e fd)
  unfolding close_client emit Fits
  close_client-Reach e fd h = output (closed fd ∷ []) (tt, tt) (close fd h)

  module _ (fl : Floats) (says : Says k fl) where
    pub send_lock-Reach : (e : Daemon) → Reach k d e → Reach k d (send_lock_to_active_agent fl e)
    unfolding send_lock_to_active_agent send emit Fits
    send_lock-Reach e h =
        elim (lock_target e.active_session e.agents)
          as (λ o. Reach k d (elim o [ none ↦ e | some fd ↦ send e fd (encode_lock fl) ])) [
            | none ↦ h
            | some fd ↦ output (sent fd (encode_lock fl) ∷ []) (says.lock, tt) h
          ]

    broadcast-Reach :
        (env : Env) (line : Text) (e : Daemon)
        → k.Line line
        → Reach k d e
        → Reach k d (broadcast_and_wait_acks fl env line e)
    unfolding broadcast_and_wait_acks
    broadcast-Reach env line e q h =
        let fds = agent_fds e.conns in
        output (send_each line fds ++ wait_outputs (written_fds env.line_ok fds) env.rounds)
          (All-append (Fits k) (send_each line fds) _ (send_each-Fits k line fds q)
            (wait_outputs-Fits k (written_fds env.line_ok fds) env.rounds))
          h

    do_suspend-Reach :
        (env : Env) (action : Text) (e : Daemon)
        → Reach k d e
        → Reach k d (do_suspend fl env action e)
    unfolding do_suspend
    do_suspend-Reach env action e h =
        let locked = send_lock_to_active_agent fl e in
        let line = encode_pre_sleep fl in
        run_hw_action-Reach (broadcast_and_wait_acks fl env line locked) action
          (broadcast-Reach env line locked says.pre_sleep (send_lock-Reach e h))

    pub on_hello-Reach :
        (e : Daemon) (fd : ℕ) (msg : Value)
        → k.members fd ≡ true
        → Reach k d e
        → Reach k d (on_hello fl e fd msg)
    unfolding on_hello send_config send emit Fits
    on_hello-Reach e fd msg p h =
        let a = new_agent fl msg in
        output (sent fd (config_line fl (record e { agents = insert fd a e.agents })) ∷ [])
          (says.config (record e { agents = insert fd a e.agents }), tt) (register fd a p h)

    suspend_by-Reach :
        (env : Env) (e : Daemon) (p : Option Profile)
        → Reach k d e
        → Reach k d (suspend_by fl env e p)
    unfolding suspend_by
    suspend_by-Reach env e none h = h
    suspend_by-Reach env e (some p) h =
        if-Reach k d (leb_ℤ p.sleep_timeout (pos 0)) h (do_suspend-Reach env (codes "suspend") e h)

    pub on_idle_sleep-Reach :
        (env : Env) (e : Daemon) (fd : ℕ) → Reach k d e → Reach k d (on_idle_sleep fl env e fd)
    unfolding on_idle_sleep
    on_idle_sleep-Reach env e fd h =
        if-Reach k d (not (is_active_agent e fd)) h
          (if-Reach k d (has_any_inhibit e) h (suspend_by-Reach env e (profile e) h))

    change_agent-Reach :
        (e : Daemon) (fd : ℕ) (f : AgentState → AgentState) (o : Option AgentState)
        → k.members fd ≡ true
        → Reach k d e
        → Reach k d (change_agent fl e fd f o)
    unfolding change_agent send emit Fits
    change_agent-Reach e fd f none p h = h
    change_agent-Reach e fd f (some a) p h =
        output (sent fd (encode_ack fl) ∷ []) (says.ack, tt) (register fd (f a) p h)

    pub on_inhibit-Reach :
        (e : Daemon) (fd : ℕ) (msg : Value)
        → k.members fd ≡ true
        → Reach k d e
        → Reach k d (on_inhibit fl e fd msg)
    unfolding on_inhibit
    on_inhibit-Reach e fd msg p h = change_agent-Reach e fd _ (lookup fd e.agents) p h

    pub on_uninhibit-Reach :
        (e : Daemon) (fd : ℕ) (msg : Value)
        → k.members fd ≡ true
        → Reach k d e
        → Reach k d (on_uninhibit fl e fd msg)
    unfolding on_uninhibit
    on_uninhibit-Reach e fd msg p h = change_agent-Reach e fd _ (lookup fd e.agents) p h

    act-Reach :
        (env : Env) (e : Daemon) (action : Text) → Reach k d e → Reach k d (act fl env e action)
    unfolding act
    act-Reach env e action h =
        if-Reach k d _ h
          (if-Reach k d _ (do_suspend-Reach env action e h) (run_hw_action-Reach e action h))

    pub on_event-Reach :
        (env : Env) (e : Daemon) (event : HwEvent)
        → Reach k d e
        → Reach k d (on_event fl env e event)
    unfolding on_event
    on_event-Reach env e event h =
        elim (profile e)
          as (λ o. Reach k d (elim o [ none ↦ e | some p ↦ act fl env e (action_of event p) ])) [
            | none ↦ h
            | some p ↦ act-Reach env e (action_of event p) h
          ]
